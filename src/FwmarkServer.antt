-- ===== src/FwmarkServer.antt =====
-- server/FwmarkServer.cpp and include/FwmarkCommand.h: the server that marks the sockets of clients.
-- What the client sends and what the kernel answers are values; the calls on sockets are parameters.
pub mod Process
pub mod Marks
pub mod Queries
use system_netd.Prelude.{
  ℕ, ◌^◌, ◌%◌, Bool, true, false, not, ◌&&◌, ◌||◌, Option, none, some, List, [], ◌==◌,
  if◌then◌else◌, bit_or,
}
use system_netd.Prelude.Int.{ℤ}
use system_netd.Prelude.Keys.{Name}
use system_netd.Prelude.Steps.{Step}
use system_netd.Errno.{eperm, eproto}
use system_netd.Fwmark.{Fwmark, permission_none, permission_system, has_permission}
use system_netd.Platform.{Platform}
use system_netd.Controller.{Controller, is_virtual_network, can_protect, netid_unset, invalid_uid}
use system_netd.Controller.Access.{check_user_network_access}
use system_netd.Controller.Selection.{get_network_for_user, get_network_for_connect}

-- `FwmarkCommand::CmdId`; the last stands for the values that are not in the enumeration
pub data CmdId : Type 0 where
  on_accept on_connect select_network protect_from_vpn select_for_user : CmdId
  query_user_access on_connect_complete tag_socket untag_socket : CmdId
  unused_set_counterset unused_delete_tagdata on_sendmmsg on_sendmsg on_sendto : CmdId
  unknown : ℕ → CmdId

pub record FwmarkCommand : Type 0 where
  pub cmd_id : CmdId
  pub net_id : ℕ
  pub uid : ℕ
  pub traffic_ctrl_info : ℕ

-- `FwmarkConnectInfo`, its `sockaddr` as bytes
pub record FwmarkConnectInfo : Type 0 where
  pub error : ℤ
  pub latency_ms : ℕ
  pub addr : Name

-- the arguments of `INetdEventListener::onConnectEvent`
pub record ConnectEvent : Type 0 where
  pub net_id : ℕ
  pub error : ℤ
  pub latency_ms : ℕ
  pub ip_addr : Name
  pub port : ℕ
  pub uid : ℕ

-- A `getsockopt`: the value, or the `errno`.
pub data Answer : Type 0 where
  value : ℕ → Answer
  refused : ℕ → Answer

-- The calls on sockets, on the event listener and into libnetd_updatable.
pub record Sockets (W : Type 0) : Type 0 where
  pub get_domain : W → ℤ → Answer
  pub get_mark : W → ℤ → Answer
  pub get_protocol : W → ℤ → Answer
  pub set_mark : ℤ → ℕ → Step W
  pub close : ℤ → W → W
  pub has_listener : W → Bool
  pub get_name_info : Name → Option (Name × ℕ)
  pub on_connect_event : ConnectEvent → W → W
  pub tag : ℤ → ℕ → ℕ → ℕ → Step W
  pub untag : ℤ → Step W

abbrev pub af_inet : ℕ
af_inet = 2

abbrev pub af_inet6 : ℕ
af_inet6 = 10

abbrev pub ipproto_udp : ℕ
ipproto_udp = 17

abbrev pub is_supported_family : ℕ → Bool
is_supported_family family = family == af_inet || family == af_inet6

unfoldable pub has_destination_address : CmdId → Bool → Bool
has_destination_address on_connect_complete redirect_socket_calls = true
has_destination_address on_sendto redirect_socket_calls = redirect_socket_calls
has_destination_address on_connect redirect_socket_calls = redirect_socket_calls
has_destination_address on_sendmsg redirect_socket_calls = redirect_socket_calls
has_destination_address on_sendmmsg redirect_socket_calls = redirect_socket_calls
has_destination_address _ redirect_socket_calls = false

-- What a case of the switch ends in: a `return`, or a `break` with the mark and the permission that
-- are to be written; the last argument is the state of the rest of the system.
pub data Handled (W : Type 0) : Type 0 where
  returns : ℕ → W → Handled W
  marks : Fwmark → ℕ → W → Handled W

-- `fwmark.netId = id`, into a field of 16 bits
abbrev pub with_net_id : ℕ → Fwmark → Fwmark
with_net_id id m = record m { net_id = id % 2 ^ 16 }

-- the address and the port of an event, empty and 0 where `getnameinfo` fails
connect_event : FwmarkConnectInfo → ℕ → ℕ → Option (Name × ℕ) → ConnectEvent
connect_event info net_id uid none = record {
  net_id = net_id;
  error = info.error;
  latency_ms = info.latency_ms;
  ip_addr = [];
  port = 0;
  uid = uid;
}
connect_event info net_id uid (some (ip_addr, port)) = record {
  net_id = net_id;
  error = info.error;
  latency_ms = info.latency_ms;
  ip_addr = ip_addr;
  port = port;
  uid = uid;
}

module _ {W : Type 0} where
  -- the body of ON_CONNECT
  unfoldable pub connect_mark : Controller W → ℕ → Fwmark → Fwmark
  connect_mark c uid m =
      if m.explicitly_selected
      then m
      else if not m.protected_from_vpn
      then with_net_id (get_network_for_connect c uid) m
      else if not (is_virtual_network c m.net_id)
      then with_net_id c.default_net_id m
      else m

  -- the mark of PROTECT_FROM_VPN
  unfoldable pub protect_mark : Controller W → Fwmark → Fwmark
  protect_mark c m =
      if not m.explicitly_selected && is_virtual_network c m.net_id
      then record (with_net_id c.default_net_id m) { protected_from_vpn = true }
      else record m { protected_from_vpn = true }

  -- the report of ON_CONNECT_COMPLETE, on what SO_PROTOCOL is
  report_connect : Sockets W → FwmarkConnectInfo → ℕ → ℕ → Answer → W → W
  unfolding connect_event
  report_connect k info net_id uid (refused e) w = w
  report_connect k info net_id uid (value protocol) w =
      if protocol == ipproto_udp
      then w
      else if k.has_listener w
      then k.on_connect_event (connect_event info net_id uid (k.get_name_info info.addr)) w
      else w

  returned : ℕ × W → Handled W
  returned r = returns r.0 r.1

module _ {W : Type 0} (p : Platform W) (k : Sockets W) where
  -- SELECT_NETWORK of a network
  unfoldable pub select : Controller W → ℕ → ℕ → ℕ → Fwmark → Handled W
  select c uid net_id permission m =
      let ret = check_user_network_access p c uid net_id in
      if ret == 0
      then marks
          (record (with_net_id net_id m) {
            explicitly_selected = true;
            protected_from_vpn = can_protect p c uid;
          })
          permission c.world
      else returns ret c.world

  -- The switch: the client's UID, the socket, the command, the client's permission and the mark of
  -- the socket.
  unfoldable pub handle :
      CmdId → ℕ → ℤ → FwmarkCommand → FwmarkConnectInfo → ℕ → Fwmark → Controller W → Handled W
  unfolding connect_mark protect_mark report_connect returned select
  handle on_accept uid fd command info permission m c =
      marks m (bit_or permission m.permission) c.world
  handle on_connect uid fd command info permission m c =
      marks (connect_mark c uid m) permission c.world
  handle on_connect_complete uid fd command info permission m c =
      marks m permission (report_connect k info m.net_id uid (k.get_protocol c.world fd) c.world)
  handle on_sendmmsg uid fd command info permission m c = returns 0 c.world
  handle on_sendmsg uid fd command info permission m c = returns 0 c.world
  handle on_sendto uid fd command info permission m c = returns 0 c.world
  handle select_network uid fd command info permission m c =
      if command.net_id == netid_unset
      then marks
          (record (with_net_id command.net_id m) {
            explicitly_selected = false;
            protected_from_vpn = false;
          })
          permission_none c.world
      else select c uid command.net_id permission m
  handle protect_from_vpn uid fd command info permission m c =
      if not (can_protect p c uid)
      then returns eperm c.world
      else marks (protect_mark c m) (bit_or permission m.permission) c.world
  handle select_for_user uid fd command info permission m c =
      if not (has_permission permission permission_system)
      then returns eperm c.world
      else marks
          (record (with_net_id (get_network_for_user c command.uid) m) {
            protected_from_vpn = true;
          })
          permission c.world
  handle tag_socket uid fd command info permission m c =
      let tag_uid = if command.uid == invalid_uid then uid else command.uid in
      returned (k.tag fd command.traffic_ctrl_info tag_uid uid c.world)
  handle untag_socket uid fd command info permission m c = returned (k.untag fd c.world)
  handle _ uid fd command info permission m c = returns eproto c.world
