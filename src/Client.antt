-- ===== src/Client.antt =====
-- client/FwmarkClient.cpp: how a process of an app asks the server for marks. The calls on sockets
-- are parameters.
pub mod Shims
pub mod Process
pub mod Served
pub mod Guarded
pub mod Granted
pub mod Answers
pub mod Dns
use system_netd.Prelude.{
  ℕ, Bool, true, false, ◌&&◌, not, Option, none, some, List, [], ◌∷◌, ◌==◌, if◌then◌else◌,
}
use system_netd.Prelude.Int.{ℤ, pos, ltb_ℤ}
use system_netd.Prelude.Keys.{Name}
use system_netd.Prelude.Steps.{Step}
use system_netd.Errno.{ebadf, eafnosupport}
use system_netd.FwmarkServer.{
  CmdId, query_user_access, FwmarkCommand, FwmarkConnectInfo, Answer, value, refused,
  is_supported_family,
}

-- A `sockaddr`: its family, and the bytes of the `sockaddr_in` or `sockaddr_in6`.
pub record Sockaddr : Type 0 where
  pub sa_family : ℕ
  pub bytes : Name

-- What `sendmsg` takes: the command, the descriptor of SCM_RIGHTS, and the FwmarkConnectInfo.
pub record Message : Type 0 where
  pub command : FwmarkCommand
  pub fd : Option ℤ
  pub connect_info : Option FwmarkConnectInfo

-- What `recv` gives: an `errno`, no byte, or the error of the server, negated.
pub data Reply : Type 0 where
  broken : ℕ → Reply
  silent : Reply
  answered : ℕ → Reply

-- The calls on the local socket to the server; a call is 0 or its `errno`, `connect_channel` says
-- whether the server was reached.
pub record Channel (W : Type 0) : Type 0 where
  pub open_channel : Step W
  pub connect_channel : W → Bool × W
  pub send_message : Message → Step W
  pub receive : W → Reply × W
  pub close_channel : W → W

-- What the client asks of its process and of its sockets. `marking_disabled` is the variable
-- ANDROID_NO_USE_FWMARK_CLIENT in a process of root.
pub record Local (W : Type 0) : Type 0 where
  pub marking_disabled : W → Bool
  pub get_domain : W → ℤ → Answer
  pub get_mark : W → ℤ → Answer
  pub close : ℤ → W → W

abbrev pub command_has_fd : CmdId → Bool
command_has_fd query_user_access = false
command_has_fd _ = true

-- `FwmarkConnectInfo(connectErrno, latency, saddr)`; an address of another family is AF_UNSPEC.
abbrev pub connect_info_of : ℕ → ℕ → Sockaddr → FwmarkConnectInfo
connect_info_of error latency_ms addr = record {
  error = pos error;
  latency_ms = latency_ms;
  addr = if is_supported_family addr.sa_family then addr.bytes else 0 ∷ 0 ∷ [];
}

abbrev pub command_of : CmdId → ℕ → ℕ → ℕ → FwmarkCommand
command_of cmd_id net_id uid traffic_ctrl_info = record {
  cmd_id = cmd_id;
  net_id = net_id;
  uid = uid;
  traffic_ctrl_info = traffic_ctrl_info;
}

unfoldable pub message_of : FwmarkCommand → ℤ → Option FwmarkConnectInfo → Message
message_of command fd connect_info = record {
  command = command;
  fd = if command_has_fd command.cmd_id then some fd else none;
  connect_info = connect_info;
}

module _ {W : Type 0} (local : Local W) where
  unfoldable pub should_set_fwmark : W → ℕ → Bool
  should_set_fwmark w family = is_supported_family family && not (local.marking_disabled w)

  -- The answer of SO_DOMAIN
  unfoldable pub check_family : W → Answer → ℕ
  unfolding should_set_fwmark
  check_family w (refused e) = e
  check_family w (value family) = if should_set_fwmark w family then 0 else eafnosupport

  unfoldable pub check_socket : W → ℤ → ℕ
  unfolding check_family
  check_socket w fd = if ltb_ℤ fd (pos 0) then ebadf else check_family w (local.get_domain w fd)

  unfoldable pub should_mark_socket : W → ℤ → Sockaddr → Bool
  unfolding should_set_fwmark check_socket
  should_mark_socket w fd dst = should_set_fwmark w dst.sa_family && (check_socket w fd == 0)

module _ {W : Type 0} (channel : Channel W) where
  unfoldable pub error_of : Reply × W → ℕ × W
  error_of (broken e, w) = (e, w)
  error_of (silent, w) = (0, w)
  error_of (answered e, w) = (e, w)

  unfoldable pub exchange : Message → Step W
  unfolding error_of
  exchange m w =
      let sent = channel.send_message m w in
      if sent.0 == 0 then error_of (channel.receive sent.1) else sent

  -- Without a server there is no error.
  unfoldable pub send_connected : Message → Bool × W → ℕ × W
  unfolding exchange
  send_connected m (false, w) = (0, w)
  send_connected m (true, w) = exchange m w

  -- The destructor closes the channel.
  unfoldable pub send : FwmarkCommand → ℤ → Option FwmarkConnectInfo → Step W
  unfolding message_of send_connected
  send command fd connect_info w =
      let opened = channel.open_channel w in
      let r =
        send_connected (message_of command fd connect_info) (channel.connect_channel opened.1) in
      if opened.0 == 0 then (r.0, channel.close_channel r.1) else opened
