-- ===== src/FwmarkServer/Process.antt =====
-- `processClient` and `onDataAvailable` of server/FwmarkServer.cpp.
use system_netd.Prelude.{ℕ, ◌+◌, ◌%◌, Bool, true, false, not, List, [], ◌∷◌, ◌==◌, if◌then◌else◌}
use system_netd.Prelude.Int.{ℤ, pos, negsuc, ltb_ℤ}
use system_netd.Prelude.Steps.{Step}
use system_netd.Errno.{eperm, ebadf, ebadmsg, eshutdown, eafnosupport}
use system_netd.Fwmark.{int_value, from_int_value, permission_system, has_permission}
use system_netd.Platform.{Platform}
use system_netd.Controller.{Controller, get_permission_for_user}
use system_netd.Controller.Access.{check_user_network_access}
use system_netd.FwmarkServer.{
  CmdId, query_user_access, FwmarkCommand, FwmarkConnectInfo, Answer, value, refused, Sockets,
  Handled, returns, marks, is_supported_family, has_destination_address, handle,
}

-- What `ReceiveFileDescriptorVector` gives: an `errno`, or the length, what the two `memcpy` take out
-- of the buffer, and the descriptors.
pub data Received : Type 0 where
  failed : ℕ → Received
  message : ℕ → FwmarkCommand → FwmarkConnectInfo → List ℤ → Received

-- `sizeof(FwmarkCommand)` and `sizeof(FwmarkConnectInfo)`
abbrev pub size_of_command : ℕ
size_of_command = 16

abbrev pub size_of_connect_info : ℕ
size_of_connect_info = 36

abbrev pub expected_len : CmdId → Bool → ℕ
expected_len cmd_id redirect_socket_calls =
    if has_destination_address cmd_id redirect_socket_calls
    then size_of_command + size_of_connect_info
    else size_of_command

module _ {W : Type 0} (p : Platform W) (k : Sockets W) (redirect_socket_calls : Bool)
    (uid : ℕ) where
  -- what follows the switch
  unfoldable pub write_mark : ℤ → Handled W → Controller W → ℕ × (ℤ × Controller W)
  write_mark fd (returns ret w) c = (ret, (fd, record c { world = w }))
  write_mark fd (marks m permission w) c =
      let r = k.set_mark fd (int_value (record m { permission = permission % 4 })) w in
      (r.0, (fd, record c { world = r.1 }))

  -- The two reads before the switch.
  unfoldable pub with_mark :
      ℤ → FwmarkCommand → FwmarkConnectInfo → Answer → Controller W → ℕ × (ℤ × Controller W)
  unfolding write_mark
  with_mark fd command info (refused e) c = (e, (fd, c))
  with_mark fd command info (value mark) c =
      write_mark fd
        (handle p k command.cmd_id uid fd command info (get_permission_for_user p c uid)
          (from_int_value mark) c)
        c

  unfoldable pub with_domain :
      ℤ → FwmarkCommand → FwmarkConnectInfo → Answer → Controller W → ℕ × (ℤ × Controller W)
  unfolding with_mark
  with_domain fd command info (refused e) c = (e, (fd, c))
  with_domain fd command info (value family) c =
      if not (is_supported_family family)
      then (eafnosupport, (fd, c))
      else with_mark fd command info (k.get_mark c.world fd) c

  -- The descriptors that came along: there is to be one, which is valid. `fd` is `*socketFd`.
  unfoldable pub with_fds : FwmarkCommand → FwmarkConnectInfo → List ℤ → Step (ℤ × Controller W)
  unfolding with_domain
  with_fds command info (received ∷ []) (fd, c) =
      if ltb_ℤ received (pos 0)
      then (ebadf, (fd, c))
      else with_domain received command info (k.get_domain c.world received) c
  with_fds command info _ (fd, c) = (ebadf, (fd, c))

  unfoldable pub is_query : CmdId → Bool
  is_query query_user_access = true
  is_query _ = false

  unfoldable pub process_client : Received → Step (ℤ × Controller W)
  unfolding with_fds is_query
  process_client (failed e) (fd, c) = (e, (fd, c))
  process_client (message length command info fds) (fd, c) =
      if length == 0
      then (eshutdown, (fd, c))
      else if not (length == expected_len command.cmd_id redirect_socket_calls)
      then (ebadmsg, (fd, c))
      else if is_query command.cmd_id
      then (if not (has_permission (get_permission_for_user p c uid) permission_system)
          then (eperm, (fd, c))
          else (check_user_network_access p c command.uid command.net_id, (fd, c)))
      else with_fds command info fds (fd, c)

  -- The error that is sent to the client, and the state with the socket closed.
  unfoldable pub on_data_available : Received → Step (Controller W)
  unfolding process_client
  on_data_available received c =
      let r = process_client received (negsuc 0, c) in
      let s = (r.1).1 in
      (r.0, if ltb_ℤ (r.1).0 (pos 0) then s else record s { world = k.close (r.1).0 s.world })
