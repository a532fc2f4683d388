-- ===== src/Tests/Routing.antt =====
-- RouteController with a kernel that counts the requests it accepts.
use system_netd.Prelude.{
  ℕ, ◌+◌, ◌-◌, ◌%◌, ◌^◌, ◌<◌, ◌≡◌, ◌≢◌, ◌↔◌, refl, Bool, true, false, none, some, [], ◌∷◌, bytes,
  ◌==◌, if◌then◌else◌, arith, All,
}
use system_netd.Prelude.Int.{pos}
use system_netd.Prelude.Keys.{Name, name_key, names_equal}
use system_netd.Prelude.Steps.{Step, ◌>>◌, for_each, on_second}
use system_netd.Containers.Map.{Map, find}
use system_netd.Errno.{enoent}
use system_netd.Fwmark.{has_permission, int_value}
use system_netd.Platform.{UidRangeMap}
use system_netd.RouteTables.{get_route_table_for_interface, get_route_table_index_from_global}
use system_netd.Routing.{Netlink, modify_ip_rule, request_of, inet}
use system_netd.Routing.Rules.{
  vpn_uid_range_rule, explicit_network_rule, iif_loopback, incoming_packet_mark,
  output_interface_rules, vpn_output_to_local_rule, vpn_system_permission_rule, local_network_rules,
  implicit_network_rule,
}
use system_netd.Routing.UidRules.{
  tethering_rule, uid_network_rule, uid_default_network_rule, uid_local_network_rule,
}
use system_netd.Routing.Networks.{
  modify_virtual_network, modify_physical_network, modify_incoming_packet_mark,
}
use system_netd.Routing.Match.{Packet, matches}
use system_netd.Routing.Built.{vpn_uid_range}
use system_netd.Routing.Lockdown.{OfSecureVpn, secure_vpn-Captures}
use system_netd.Routing.Explicit.{explicit_network-Matches}
use system_netd.Routing.Covered.{CoveredItem, plans-Covered}
use system_netd.Routing.Plans.{perform, physical_plan, virtual_plan}
use system_netd.Routing.Refined.{physical-Refines}
use system_netd.Routing.Undone.{virtual-Undone, physical-Undone}
use system_netd.Routing.Counted.{Request, rule_of, mark_of, send_request, KeepsCounts}
use system_netd.Routing.Routes.{Routes, Texts, create_route, modify_ip_route}
use system_netd.Routing.Routes.Proper.{Asks}
use system_netd.Routing.Routes.Asked.{modify_ip_route-Asks}
use system_netd.Routing.Upkeep.{clear_all_tethering_rules}
use system_netd.Routing.Api.Tethering.{Cleared, Shrinks, clear_all-Cleared}
use system_netd.Tests.Samples.{tun, vpn_users}
use system_netd.Tests.Tables.{sample_kernel}

-- Each request that adds is one more, and each that deletes one less.
abbrev counted : Bool → Step ℕ
counted true w = (0, w + 1)
counted false w = if w == 0 then (enoent, w) else (0, w - 1)

abbrev sample_netlink : Netlink ℕ
sample_netlink = record {
  send_rule = λ r. counted r.adds;
  flush_rules = λ w. (0, 0);
  tethering_rules = λ w. w;
  iptables_restore = λ m. counted m.adds;
  tc_qdisc_clsact = λ add i w. w;
  write_table_names = λ names w. w;
}

counts_added :
    (k : Request) (w : ℕ)
    → (send_request sample_netlink true k w).0 ≡ 0
    → (q : Request) → (send_request sample_netlink true k w).1 ≡ w + 1
unfolding modify_incoming_packet_mark request_of incoming_packet_mark
counts_added (rule_of r family) w e q = refl
counts_added (mark_of n i m) w e q = refl

counts_removed :
    (k : Request) (w : ℕ)
    → 0 < w
    → ((send_request sample_netlink false k w).0 ≡ 0)
      × ((q : Request) → (send_request sample_netlink false k w).1 + 1 ≡ w)
unfolding modify_incoming_packet_mark request_of incoming_packet_mark
counts_removed (rule_of r family) w h = (ground arith, λ q. ground arith)
counts_removed (mark_of n i m) w h = (ground arith, λ q. ground arith)

sample_counts : KeepsCounts sample_netlink
sample_counts = record {
  count = λ q w. w;
  weight = λ q k. 1;
  weight_self = λ k. refl;
  added = counts_added;
  removed = counts_removed;
}

abbrev tun_table : Map Name ℕ
tun_table = (tun, 1007) ∷ []

abbrev users : UidRangeMap
users = (pos 0, vpn_users) ∷ []

tun_found : find tun tun_table ≡ some 1007
unfolding find names_equal
tun_found = refl

virtual_added_test :
    (modify_virtual_network sample_kernel sample_netlink true 101 tun users true true false
      (tun_table, 0)).0
    ≡ 0
unfolding modify_virtual_network get_route_table_for_interface names_equal for_each modify_ip_rule
    vpn_uid_range_rule int_value explicit_network_rule output_interface_rules incoming_packet_mark
    vpn_output_to_local_rule vpn_system_permission_rule
virtual_added_test = refl

virtual-Undone_example :
    let change = λ (add : Bool).
      modify_virtual_network sample_kernel sample_netlink add 101 tun users true true false in
    let added = change true (tun_table, 0) in
    let removed = change false added.1 in
    (removed.0 ≡ 0)
    × (removed.1.0 ≡ tun_table)
    × ((q : Request) → sample_counts.count q removed.1.1 ≡ sample_counts.count q 0)
virtual-Undone_example =
    virtual-Undone sample_kernel sample_netlink sample_counts 101 tun users true true false 1007
      tun_table 0 tun_found (omega arith) virtual_added_test

local_table_test : get_route_table_index_from_global 1007 true ≢ 0
unfolding get_route_table_index_from_global
local_table_test = omega arith

physical_added_test :
    (modify_physical_network sample_kernel sample_netlink true 99 101 tun users 0 true true
      (tun_table, 0)).0
    ≡ 0
unfolding modify_physical_network get_route_table_for_interface names_equal for_each modify_ip_rule
    uid_network_rule int_value uid_default_network_rule uid_local_network_rule incoming_packet_mark
    explicit_network_rule local_network_rules output_interface_rules implicit_network_rule
physical_added_test = refl

physical-Undone_example :
    let change = λ (add : Bool).
      modify_physical_network sample_kernel sample_netlink add 99 101 tun users 0 true true in
    let added = change true (tun_table, 0) in
    let removed = change false added.1 in
    (removed.0 ≡ 0)
    × (removed.1.0 ≡ tun_table)
    × ((q : Request) → sample_counts.count q removed.1.1 ≡ sample_counts.count q 0)
physical-Undone_example =
    physical-Undone sample_kernel sample_netlink sample_counts 99 101 tun users 0 true true 1007
      tun_table 0 tun_found (omega arith) local_table_test (omega arith) physical_added_test

physical-Refines_example :
    modify_physical_network sample_kernel sample_netlink false 99 101 tun users 0 true true
      (tun_table, 40)
    ≡ on_second
        (for_each
          (physical_plan 99 101 tun users 0 true true 1007
            (get_route_table_index_from_global 1007 true))
          (perform sample_netlink false))
        (tun_table, 40)
physical-Refines_example =
    physical-Refines sample_kernel sample_netlink false tun 1007 tun_table tun_found
      local_table_test 99 101 users 0 true true 40 (omega arith) (omega arith)

-- A packet of an app.
abbrev packet : Packet
packet = record {
  mark = record {
    net_id = 100;
    explicitly_selected = true;
    protected_from_vpn = false;
    permission = 1;
    uid_billing_done = false;
    reserved = 0;
    ingress_cpu_wakeup = false;
  };
  uid = 10001;
  iif = iif_loopback;
  oif = none;
}

secure_vpn-Captures_example :
    (matches (vpn_uid_range_rule 1007 10000 10999 (pos 1) true false) packet ≡ true)
    × OfSecureVpn packet (vpn_uid_range_rule 1008 10000 10500 (pos 0) true true)
unfolding matches int_value vpn_uid_range_rule names_equal
secure_vpn-Captures_example =
    secure_vpn-Captures packet 1007 10000 10999 (pos 1) false
      (vpn_uid_range_rule 1008 10000 10500 (pos 0) true true)
      (record { low = omega arith; high = omega arith }) refl (omega arith) (omega arith) refl refl
      (vpn_uid_range 1008 10000 10500 (pos 0) true true
        (record { low = omega arith; high = omega arith }))
      refl (omega arith)

explicit_network-Matches_example :
    (matches (explicit_network_rule 100 1007 1 4294967295 4294967295 (pos 0)) packet ≡ true) ↔ (
      (packet.iif ≡ iif_loopback)
      × (packet.mark.net_id % 2 ^ 16 ≡ 100 % 2 ^ 16)
      × (packet.mark.explicitly_selected ≡ true)
      × (has_permission (packet.mark.permission % 4) (1 % 4) ≡ true))
explicit_network-Matches_example = explicit_network-Matches packet 100 1007 1 (pos 0)

tun_test : tun ≢ iif_loopback
tun_test e = ground (arith, e)

plans-Covered_example :
    All CoveredItem (virtual_plan 101 tun users true true false 1007)
    × All CoveredItem (physical_plan 99 101 tun users 0 true true 1007 1000000007)
plans-Covered_example =
    plans-Covered 99 101 tun users 0 true false true true 1007 1000000007 tun_test
      (record { low = omega arith; high = omega arith }, tt)

-- Addresses of four bytes, whatever the text.
abbrev sample_texts : Texts
sample_texts = record {
  get_addr_info = λ text. some (record { family = some inet; bytes = 10 ∷ 0 ∷ 0 ∷ 1 ∷ [] });
  inet_pton = λ family text. some (10 ∷ 0 ∷ 0 ∷ 2 ∷ []);
  prefix_family = λ text. some inet;
  is_default_route6 = λ text. false;
  contains = λ prefix text. false;
}

abbrev sample_routes : Routes ℕ
sample_routes = record { send_route = λ request w. (0, w + 1) }

modify_ip_route-Asks_example :
    Asks sample_routes sample_texts create_route 1007 1500 0
      (sample_kernel.if_name_to_index 5)
      (some tun)
      (some (bytes "10.0.0.0/8"))
      (some (bytes "10.0.0.2"))
      5
      (modify_ip_route sample_kernel sample_routes sample_texts create_route 1007
        (some tun)
        (some (bytes "10.0.0.0/8"))
        (some (bytes "10.0.0.2"))
        1500
        0
        5)
modify_ip_route-Asks_example =
    modify_ip_route-Asks sample_kernel sample_routes sample_texts create_route 1007 (some tun)
      (some (bytes "10.0.0.2")) 1500 0 5 (some (bytes "10.0.0.0/8"))

asked_test :
    (modify_ip_route sample_kernel sample_routes sample_texts create_route 1007
      (some tun)
      (some (bytes "10.0.0.0/8"))
      (some (bytes "10.0.0.2"))
      1500
      0
      5)
    ≡ (0, 6)
unfolding modify_ip_route names_equal
asked_test = refl

two_less :
    (w : ℕ)
    → ((counted false >> counted false) w).0 ≡ 0
    → ((counted false >> counted false) w).1 < w
two_less w e = ground (arith, e)

sample-Shrinks : Shrinks sample_netlink tun
unfolding Shrinks modify_ip_rule tethering_rule int_value
sample-Shrinks w e = two_less w e

clear_all-Cleared_example :
    Cleared sample_netlink tun (clear_all_tethering_rules sample_netlink tun 4)
clear_all-Cleared_example = clear_all-Cleared sample_netlink tun sample-Shrinks 4
