-- ===== src/Tests/Marks.antt =====
-- The server for marks in the sample state.
use system_netd.Prelude.{ℕ, ◌≡◌, ◌↔◌, ◌+◌, refl, true, false, none, []}
use system_netd.Prelude.Int.{pos}
use system_netd.Fwmark.{empty_mark, has_permission, permission_system}
use system_netd.FwmarkServer.{
  query_user_access, select_network, protect_from_vpn, on_connect, FwmarkCommand, FwmarkConnectInfo,
  value, Sockets, has_destination_address,
}
use system_netd.FwmarkServer.Marks.{
  Writes, SelectedBy, ProtectedBy, GivenBy, handled, explicit-Granted, protected-Granted,
  connect-Given,
}
use system_netd.FwmarkServer.Process.{message, size_of_command, on_data_available}
use system_netd.FwmarkServer.Queries.{HasAccess, query-HasAccess}
use system_netd.Controller.{get_permission_for_user, is_system_user, applies_to}
use system_netd.Controller.Access.{check_user_network_access}
use system_netd.Containers.Map
use system_netd.UidRanges
use system_netd.Network.{is_virtual, applies_to_user}
use system_netd.Tests.Samples.{up, state, state-IsConsistent}

-- An IPv4 socket without a mark.
abbrev pub sample_sockets : Sockets ℕ
sample_sockets = record {
  get_domain = λ w fd. value 2;
  get_mark = λ w fd. value 0;
  get_protocol = λ w fd. value 6;
  set_mark = λ fd mark w. (0, w + 1);
  close = λ fd w. w;
  has_listener = λ w. false;
  get_name_info = λ a. none;
  on_connect_event = λ e w. w;
  tag = λ fd tag uid real w. (0, w);
  untag = λ fd w. (0, w);
}

abbrev pub select_vpn : FwmarkCommand
select_vpn = record { cmd_id = select_network; net_id = 101; uid = 0; traffic_ctrl_info = 0 }

abbrev pub no_info : FwmarkConnectInfo
no_info = record { error = pos 0; latency_ms = 0; addr = [] }

explicit-Granted_example :
    Writes
      (SelectedBy up sample_sockets 10001 (pos 5) select_vpn no_info empty_mark state)
      (handled up sample_sockets 10001 (pos 5) select_vpn no_info empty_mark state select_network)
explicit-Granted_example =
    explicit-Granted up sample_sockets 10001 (pos 5) select_vpn no_info empty_mark state
      select_network

protected-Granted_example :
    Writes
      (ProtectedBy up sample_sockets 1016 (pos 5) select_vpn no_info empty_mark state)
      (handled up sample_sockets 1016 (pos 5) select_vpn no_info empty_mark state protect_from_vpn)
protected-Granted_example =
    protected-Granted up sample_sockets 1016 (pos 5) select_vpn no_info empty_mark state
      protect_from_vpn

connect-Given_example :
    Writes
      (GivenBy up sample_sockets 10001 (pos 5) select_vpn no_info empty_mark state)
      (handled up sample_sockets 10001 (pos 5) select_vpn no_info empty_mark state on_connect)
connect-Given_example =
    connect-Given up sample_sockets 10001 (pos 5) select_vpn no_info empty_mark state
      state-IsConsistent

-- A client of the system asks for the user of the VPN.
abbrev query_vpn : FwmarkCommand
query_vpn = record { cmd_id = query_user_access; net_id = 101; uid = 10001; traffic_ctrl_info = 0 }

query-HasAccess_example :
    let r =
      on_data_available up sample_sockets false 1000 (message 16 query_vpn no_info []) state in
    (r.1 ≡ state)
    × ((r.0 ≡ 0) ↔ (
        (16 ≡ size_of_command)
        × (has_permission (get_permission_for_user up state 1000) permission_system ≡ true)
        × HasAccess up sample_sockets false 1000 state 10001 101))
query-HasAccess_example =
    query-HasAccess up sample_sockets false 1000 16 query_vpn no_info [] state refl

queried_test :
    on_data_available up sample_sockets false 1000 (message 16 query_vpn no_info []) state
    ≡ (0, state)
unfolding on_data_available has_destination_address has_permission get_permission_for_user Map.find
    check_user_network_access is_system_user is_virtual applies_to applies_to_user UidRanges.has_uid
queried_test = refl
