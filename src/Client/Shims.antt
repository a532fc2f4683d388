-- ===== src/Client/Shims.antt =====
-- client/NetdClient.cpp: what is done in place of accept4, connect, socket and the calls that send.
use system_netd.Prelude.{ℕ, Bool, ◌&&◌, not, Option, none, some, List, [], ◌∷◌, ◌==◌, if◌then◌else◌}
use system_netd.Prelude.Int.{ℤ}
use system_netd.Prelude.Steps.{Step}
use system_netd.Errno.{eperm}
use system_netd.Controller.{netid_unset}
use system_netd.FwmarkServer.{
  CmdId, on_accept, on_connect, on_connect_complete, select_network, Answer, value, refused,
  is_supported_family,
}
use system_netd.Client.{
  Sockaddr, Channel, Local, command_of, connect_info_of, should_set_fwmark, check_socket,
  should_mark_socket, send,
}

-- What a call gives that returns a descriptor, or -1 and sets `errno`.
pub data Opened : Type 0 where
  opened : ℤ → Opened
  failed : ℕ → Opened

-- What accept4 of libc gives; the peer's family is what it writes to the address.
pub data Accepted : Type 0 where
  accepted : ℤ → ℕ → Accepted
  not_accepted : ℕ → Accepted

-- The functions of libc that are replaced, and the watch: `latency_ms` is the time between two states.
pub record Libc (W : Type 0) : Type 0 where
  pub accept4 : ℤ → Bool → ℕ → W → Accepted × W
  pub connect : ℤ → Option Sockaddr → Step W
  pub socket : ℕ → ℕ → ℕ → W → Opened × W
  pub latency_ms : W → W → ℕ

module _ {W : Type 0} (local : Local W) (channel : Channel W) (libc : Libc W) where
  -- The descriptor, or if the errno is not 0, the failure with the descriptor closed.
  unfoldable pub close_on_error : ℤ → ℕ × W → Opened × W
  close_on_error fd (error, w) =
      if error == 0 then (opened fd, w) else (failed error, local.close fd w)

  unfoldable pub mark_accepted : ℤ → Answer → W → Opened × W
  unfolding close_on_error should_set_fwmark
  mark_accepted fd (refused e) w = (failed e, local.close fd w)
  mark_accepted fd (value family) w =
      if should_set_fwmark local w family
      then close_on_error fd (send channel (command_of on_accept 0 0 0) fd none w)
      else (opened fd, w)

  unfoldable pub after_accept : Bool → Accepted × W → Opened × W
  unfolding mark_accepted
  after_accept has_addr (not_accepted e, w) = (failed e, w)
  after_accept has_addr (accepted fd family, w) =
      mark_accepted fd (if has_addr then value family else local.get_domain w fd) w

  -- `has_addr`: the caller wants the address of the peer.
  unfoldable pub netd_client_accept4 : ℤ → Bool → ℕ → W → Opened × W
  unfolding after_accept
  netd_client_accept4 fd has_addr flags w = after_accept has_addr (libc.accept4 fd has_addr flags w)

  -- `connect` of libc, and ON_CONNECT_COMPLETE, whose result is dropped.
  unfoldable pub connect_and_report : ℤ → Sockaddr → Step W
  unfolding send
  connect_and_report fd addr w =
      let r = libc.connect fd (some addr) w in
      let info = connect_info_of r.0 (libc.latency_ms w r.1) addr in
      (r.0, (send channel (command_of on_connect_complete 0 0 0) fd (some info) r.1).1)

  -- `redirect` is the property ro.vendor.redirect_socket_calls.
  unfoldable pub ask_to_connect : Bool → ℤ → Sockaddr → Step W
  unfolding send
  ask_to_connect redirect fd addr =
      send channel (command_of on_connect 0 0 0) fd
        (if redirect then some (connect_info_of 0 0 addr) else none)

  unfoldable pub marked_connect : Bool → ℤ → Sockaddr → Step W
  unfolding ask_to_connect connect_and_report
  marked_connect redirect fd addr w =
      let asked = ask_to_connect redirect fd addr w in
      if asked.0 == 0 then connect_and_report fd addr asked.1 else asked

  -- 0, or the `errno` that is set.
  unfoldable pub netd_client_connect : Bool → ℤ → Option Sockaddr → Step W
  unfolding should_mark_socket marked_connect
  netd_client_connect redirect fd none w = libc.connect fd none w
  netd_client_connect redirect fd (some addr) w =
      if should_mark_socket local w fd addr
      then marked_connect redirect fd addr w
      else libc.connect fd (some addr) w

  -- `setNetworkForSocket`
  unfoldable pub set_network_for_socket : ℕ → ℤ → Step W
  unfolding check_socket send
  set_network_for_socket net_id fd w =
      let checked = check_socket local w fd in
      if checked == 0
      then send channel (command_of select_network net_id 0 0) fd none w
      else (checked, w)

  unfoldable pub select_for_process : ℕ → ℕ → Opened × W → Opened × W
  unfolding close_on_error set_network_for_socket should_set_fwmark
  select_for_process net_id domain (failed e, w) = (failed e, w)
  select_for_process net_id domain (opened fd, w) =
      if not (net_id == netid_unset) && should_set_fwmark local w domain
      then close_on_error fd (set_network_for_socket net_id fd w)
      else (opened fd, w)

  -- `net_id` is the network of the process, `allowed` is allowNetworkingForProcess.
  unfoldable pub netd_client_socket : ℕ → Bool → ℕ → ℕ → ℕ → W → Opened × W
  unfolding select_for_process
  netd_client_socket net_id allowed domain type protocol w =
      if is_supported_family domain && not allowed
      then (failed eperm, w)
      else select_for_process net_id domain (libc.socket domain type protocol w)

  -- What the functions that send do first; `hooked` is the property
  -- net.redirect_socket_calls.hooked.
  unfoldable pub tell_destination : CmdId → Bool → ℤ → Option Sockaddr → W → W
  unfolding check_socket send
  tell_destination cmd hooked fd none w = w
  tell_destination cmd hooked fd (some addr) w =
      if hooked && (check_socket local w fd == 0) && is_supported_family addr.sa_family
      then (send channel (command_of cmd 0 0 0) fd (some (connect_info_of 0 0 addr)) w).1
      else w

-- The destination of the first of the messages of `sendmmsg`, of which each may have none.
unfoldable pub first_destination : List (Option Sockaddr) → Option Sockaddr
first_destination [] = none
first_destination (name ∷ names) = name
