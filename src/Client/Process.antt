-- ===== src/Client/Process.antt =====
-- client/NetdClient.cpp: the networks that a process chooses, and the other calls for the server.
use system_netd.Prelude.{ℕ, ◌-◌, ◌^◌, Bool, true, not, none, ◌==◌, bit_and, if◌then◌else◌}
use system_netd.Prelude.Int.{ℤ, pos, negsuc, ltb_ℤ}
use system_netd.Prelude.Steps.{Step}
use system_netd.Errno.{ebadf}
use system_netd.Fwmark.{from_int_value}
use system_netd.Controller.{netid_unset}
use system_netd.FwmarkServer.{
  protect_from_vpn, select_for_user, query_user_access, tag_socket, untag_socket, FwmarkCommand,
  Answer, value, refused, af_inet6,
}
use system_netd.Client.{Channel, Local, command_of, check_socket, send}
use system_netd.Client.Shims.{
  Opened, opened, failed, Libc, netd_client_socket, set_network_for_socket,
}

-- netIdForProcess, netIdForResolv and allowNetworkingForProcess
pub record Process : Type 0 where
  pub net_id_for_process : ℕ
  pub net_id_for_resolv : ℕ
  pub allow_networking_for_process : Bool

abbrev pub initial_process : Process
initial_process = record {
  net_id_for_process = 0;
  net_id_for_resolv = 0;
  allow_networking_for_process = true;
}

-- SOCK_DGRAM | SOCK_CLOEXEC
abbrev pub sock_dgram_cloexec : ℕ
sock_dgram_cloexec = 0x80002

-- `netId & ~NETID_USE_LOCAL_NAMESERVERS`, a flag of the resolver.
module _ (use_local_nameservers : ℕ) where
  unfoldable pub without_flag : ℕ → ℕ
  without_flag net_id = bit_and net_id (2 ^ 32 - 1 - use_local_nameservers)

  unfoldable pub get_network_for_process : Process → ℕ
  unfolding without_flag
  get_network_for_process process = without_flag process.net_id_for_process

  unfoldable pub get_network_for_resolv : Process → ℕ → ℕ
  unfolding without_flag
  get_network_for_resolv process net_id =
      if not (net_id == netid_unset)
      then net_id
      else if not (without_flag process.net_id_for_resolv == netid_unset)
      then process.net_id_for_resolv
      else if not (process.net_id_for_process == netid_unset)
      then process.net_id_for_process
      else process.net_id_for_resolv

abbrev pub set_allow_networking_for_process : Bool → Process → Process
set_allow_networking_for_process allow process = record process {
  allow_networking_for_process = allow;
}

module _ {W : Type 0} (local : Local W) (channel : Channel W) (libc : Libc W) where
  -- The socket on which the network is tried, and is closed.
  unfoldable pub try_network : ℕ → Opened × W → ℕ × W
  unfolding set_network_for_socket
  try_network net_id (failed e, w) = (e, w)
  try_network net_id (opened fd, w) =
      let r = set_network_for_socket local channel libc net_id fd w in (r.0, local.close fd r.1)

module _ {W : Type 0} (local : Local W) (channel : Channel W) (libc : Libc W)
    (use_local_nameservers : ℕ) where
  -- `store` writes the target: the network of the process, or that for resolving.
  unfoldable pub set_network_for_target : ℕ → (ℕ → Process → Process) → Step (Process × W)
  unfolding without_flag try_network
  set_network_for_target requested store (process, w) =
      let net_id = without_flag use_local_nameservers requested in
      let tried =
        try_network local channel libc net_id (libc.socket af_inet6 sock_dgram_cloexec 0 w) in
      if net_id == netid_unset
      then (0, (store net_id process, w))
      else if tried.0 == 0
      then (0, (store requested process, tried.1))
      else (tried.0, (process, tried.1))

  unfoldable pub set_network_for_process : ℕ → Step (Process × W)
  unfolding set_network_for_target
  set_network_for_process net_id =
      set_network_for_target net_id (λ id process. record process { net_id_for_process = id })

  unfoldable pub set_network_for_resolv : ℕ → Step (Process × W)
  unfolding set_network_for_target
  set_network_for_resolv net_id =
      set_network_for_target net_id (λ id process. record process { net_id_for_resolv = id })

  -- `socket` in a process with its network.
  unfoldable pub socket_of_process : ℕ → ℕ → ℕ → Process × W → Opened × W
  unfolding get_network_for_process netd_client_socket
  socket_of_process domain type protocol (process, w) =
      netd_client_socket local channel libc (get_network_for_process use_local_nameservers process)
        process.allow_networking_for_process domain type protocol w

module _ {W : Type 0} (local : Local W) (channel : Channel W) where
  -- CHECK_SOCKET_IS_MARKABLE, and the command.
  unfoldable pub ask_for_socket : FwmarkCommand → ℤ → Step W
  unfolding check_socket send
  ask_for_socket command fd w =
      let checked = check_socket local w fd in
      if checked == 0 then send channel command fd none w else (checked, w)

  unfoldable pub ask_protect_from_vpn : ℤ → Step W
  unfolding ask_for_socket
  ask_protect_from_vpn fd = ask_for_socket (command_of protect_from_vpn 0 0 0) fd

  unfoldable pub ask_network_for_user : ℕ → ℤ → Step W
  unfolding ask_for_socket
  ask_network_for_user uid fd = ask_for_socket (command_of select_for_user 0 uid 0) fd

  unfoldable pub ask_user_access : ℕ → ℕ → Step W
  unfolding send
  ask_user_access uid net_id =
      send channel (command_of query_user_access net_id uid 0) (negsuc 0) none

  unfoldable pub ask_tag_socket : ℤ → ℕ → ℕ → Step W
  unfolding ask_for_socket
  ask_tag_socket fd tag uid = ask_for_socket (command_of tag_socket 0 uid tag) fd

  unfoldable pub ask_untag_socket : ℤ → Step W
  unfolding ask_for_socket
  ask_untag_socket fd = ask_for_socket (command_of untag_socket 0 0 0) fd

  -- `getNetworkForSocket`, on the mark of the socket.
  unfoldable pub get_network_for_socket : W → ℤ → Answer
  unfolding from_int_value
  get_network_for_socket w fd =
      if ltb_ℤ fd (pos 0) then refused ebadf else elim (local.get_mark w fd) [
        | refused e ↦ refused e
        | value mark ↦ value (from_int_value mark).net_id
      ]
