-- ===== src/Tests/Lockdown.antt =====
-- A packet from a socket that was accepted, by an app under the secure VPN of the sample state.
use system_netd.Prelude.{◌≡◌, refl, true, false, none, arith}
use system_netd.Prelude.Int.{pos}
use system_netd.Prelude.Keys.{names_equal}
use system_netd.Containers.Map
use system_netd.Containers.OrderedSet
use system_netd.Fwmark.{empty_mark, int_value, has_permission}
use system_netd.Controller.{can_protect, get_permission_for_user}
use system_netd.FwmarkServer.{on_accept, marks, handle}
use system_netd.FwmarkServer.Marks.{handled}
use system_netd.Routing.Rules.{vpn_uid_range_rule, iif_loopback}
use system_netd.Routing.Match.{Packet, matches}
use system_netd.Routing.Built.{vpn_uid_range}
use system_netd.Routing.Lockdown.{OfSecureVpn}
use system_netd.Routing.Lockdown.Sockets.{marked-Captured}
use system_netd.Tests.Samples.{up, state}
use system_netd.Tests.Marks.{sample_sockets, select_vpn, no_info}

abbrev accepted_packet : Packet
accepted_packet = record { mark = empty_mark; uid = 10001; iif = iif_loopback; oif = none }

accepted_test :
    handled up sample_sockets 10001 (pos 5) select_vpn no_info empty_mark state on_accept
    ≡ marks empty_mark 0 state.world
unfolding handle get_permission_for_user Map.find empty_mark
accepted_test = refl

unprotected_test : can_protect up state 10001 ≡ false
unfolding can_protect has_permission get_permission_for_user Map.find OrderedSet.contains
unprotected_test = refl

marked-Captured_example :
    (matches (vpn_uid_range_rule 1007 10000 10999 (pos 1) true false) accepted_packet ≡ true)
    × OfSecureVpn accepted_packet (vpn_uid_range_rule 1008 10000 10500 (pos 0) true true)
unfolding empty_mark matches int_value vpn_uid_range_rule names_equal
marked-Captured_example =
    marked-Captured up sample_sockets 10001 (pos 5) select_vpn no_info empty_mark state on_accept
      empty_mark 0 state.world accepted_packet 1007 10000 10999 (pos 1) false
      (vpn_uid_range_rule 1008 10000 10500 (pos 0) true true) accepted_test refl unprotected_test
      (omega arith) refl refl (omega arith) refl (record { low = omega arith; high = omega arith })
      (vpn_uid_range 1008 10000 10500 (pos 0) true true
        (record { low = omega arith; high = omega arith }))
      refl (omega arith)
