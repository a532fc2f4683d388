-- ===== src/Routing/Rules.antt =====
-- The rules that the functions `modify…Rule` of server/RouteController.cpp build.
use system_netd.Prelude.{
  ℕ, ◌-◌, ◌^◌, Bool, true, ◌&&◌, Option, none, some, List, [], ◌∷◌, ◌==◌, if◌then◌else◌, bytes,
}
use system_netd.Prelude.Int.{ℤ, ◌+ℤ◌}
use system_netd.Prelude.Keys.{Name}
use system_netd.Fwmark.{
  Fwmark, empty_mark, int_value, get_uid_billing_mask, permission_none, permission_system,
}
use system_netd.Network.{sub_priority_highest}
use system_netd.RouteTables.{
  route_table_local_network, route_table_legacy_network, route_table_legacy_system, rt_table_unspec,
}
use system_netd.Routing.{Rule, to_table, unreachable_rule, MarkCommand, invalid_uid}
use system_netd.Routing.Priorities.{
  rule_priority_vpn_override_system, rule_priority_vpn_override_oif,
  rule_priority_vpn_output_to_local, rule_priority_secure_vpn, rule_priority_explicit_network,
  rule_priority_output_interface, rule_priority_legacy_system, rule_priority_legacy_network,
  rule_priority_local_network, rule_priority_implicit_network,
  rule_priority_bypassable_vpn_no_local_exclusion, rule_priority_local_routes,
  rule_priority_bypassable_vpn_local_exclusion, rule_priority_vpn_fallthrough,
  rule_priority_unreachable,
}

abbrev pub fwmark_net_id_mask : ℕ
fwmark_net_id_mask = 0xffff

abbrev pub net_id_unset : ℕ
net_id_unset = 0

abbrev pub iif_loopback : Name
iif_loopback = bytes "lo"

abbrev pub uid_root : ℕ
uid_root = 0

-- `modifyIpRule` without a rule type, and without interfaces and UIDs.
unfoldable pub table_rule : ℤ → ℕ → Fwmark → Fwmark → Option Name → Option Name → ℕ → ℕ → Rule
table_rule priority table fwmark mask iif oif uid_start uid_end = record {
  priority = priority;
  rule_type = to_table;
  table = table;
  fwmark = int_value fwmark;
  mask = int_value mask;
  iif = iif;
  oif = oif;
  uid_start = uid_start;
  uid_end = uid_end;
}

unfoldable pub mark_rule : ℤ → ℕ → Fwmark → Fwmark → Rule
unfolding table_rule
mark_rule priority table fwmark mask =
    table_rule priority table fwmark mask none none invalid_uid invalid_uid

unfoldable pub incoming_packet_mark : ℕ → Name → ℕ → Bool → MarkCommand
incoming_packet_mark net_id interface permission add = record {
  adds = add;
  interface = interface;
  mark = int_value (record empty_mark {
    net_id = net_id;
    explicitly_selected = true;
    protected_from_vpn = true;
    permission = permission;
  });
  mask = 2 ^ 32 - 1 - get_uid_billing_mask;
}

unfoldable pub vpn_output_to_local_rule : Name → Rule
unfolding table_rule empty_mark
vpn_output_to_local_rule vpn_interface =
    table_rule rule_priority_vpn_output_to_local route_table_local_network empty_mark empty_mark
      (some vpn_interface) none invalid_uid invalid_uid

-- The priority of the rules of a VPN.
unfoldable pub vpn_priority : Bool → Bool → ℤ
vpn_priority secure exclude_local_routes =
    if secure
    then rule_priority_secure_vpn
    else if exclude_local_routes
    then rule_priority_bypassable_vpn_local_exclusion
    else rule_priority_bypassable_vpn_no_local_exclusion

unfoldable pub vpn_uid_range_rule : ℕ → ℕ → ℕ → ℤ → Bool → Bool → Rule
unfolding table_rule empty_mark vpn_priority
vpn_uid_range_rule table uid_start uid_end sub_priority secure exclude_local_routes =
    let mask = record empty_mark { protected_from_vpn = true } in
    let mask = if secure then mask else record mask { explicitly_selected = true } in
    table_rule (vpn_priority secure exclude_local_routes +ℤ sub_priority) table empty_mark mask
      (some iif_loopback) none uid_start uid_end

unfoldable pub vpn_system_permission_rule : ℕ → ℕ → Bool → Bool → Rule
unfolding mark_rule empty_mark vpn_priority
vpn_system_permission_rule net_id table secure exclude_local_routes =
    mark_rule (vpn_priority secure exclude_local_routes) table
      (record empty_mark { net_id = net_id; permission = permission_system })
      (record empty_mark { net_id = fwmark_net_id_mask; permission = permission_system })

unfoldable pub explicit_network_rule : ℕ → ℕ → ℕ → ℕ → ℕ → ℤ → Rule
unfolding table_rule empty_mark
explicit_network_rule net_id table permission uid_start uid_end sub_priority =
    table_rule (rule_priority_explicit_network +ℤ sub_priority) table
      (record empty_mark { net_id = net_id; explicitly_selected = true; permission = permission })
      (record empty_mark {
        net_id = fwmark_net_id_mask;
        explicitly_selected = true;
        permission = permission;
      })
      (some iif_loopback) none uid_start uid_end

-- `modifyLocalNetworkRule`
unfoldable pub local_network_rules : ℕ → ℕ → List Rule
unfolding table_rule mark_rule empty_mark
local_network_rules local_net_id table =
    mark_rule rule_priority_local_network table empty_mark
      (record empty_mark { explicitly_selected = true })
    ∷ table_rule rule_priority_explicit_network table
        (record empty_mark { net_id = local_net_id; explicitly_selected = true })
        (record empty_mark { net_id = fwmark_net_id_mask; explicitly_selected = true })
        (some iif_loopback) none invalid_uid invalid_uid
    ∷ []

-- The rule for root, and the rule with the priority of output interfaces.
unfoldable pub root_interface_rule : Name → ℕ → Rule
unfolding table_rule empty_mark
root_interface_rule interface table =
    table_rule rule_priority_vpn_override_oif table empty_mark empty_mark (some iif_loopback)
      (some interface) uid_root uid_root

unfoldable pub output_interface_rule : Name → ℕ → ℕ → ℕ → ℕ → ℤ → Rule
unfolding table_rule empty_mark
output_interface_rule interface table permission uid_start uid_end sub_priority =
    let mark = record empty_mark { permission = permission } in
    table_rule (rule_priority_output_interface +ℤ sub_priority) table mark mark (some iif_loopback)
      (some interface) uid_start uid_end

-- `modifyOutputInterfaceRules`
unfoldable pub output_interface_rules : Name → ℕ → ℕ → ℕ → ℕ → ℤ → List Rule
unfolding root_interface_rule output_interface_rule
output_interface_rules interface table permission uid_start uid_end sub_priority =
    let chosen = output_interface_rule interface table permission uid_start uid_end sub_priority in
    if (uid_start == invalid_uid) && (uid_end == invalid_uid)
    then root_interface_rule interface table ∷ chosen ∷ []
    else chosen ∷ []

unfoldable pub implicit_network_rule : ℕ → ℕ → Rule
unfolding table_rule empty_mark
implicit_network_rule net_id table =
    table_rule rule_priority_implicit_network table (record empty_mark { net_id = net_id })
      (record empty_mark { net_id = fwmark_net_id_mask; explicitly_selected = true })
      (some iif_loopback) none invalid_uid invalid_uid

unfoldable pub vpn_local_exclusion_rule : ℕ → Rule
unfolding table_rule empty_mark
vpn_local_exclusion_rule table =
    table_rule rule_priority_local_routes table empty_mark
      (record empty_mark { explicitly_selected = true }) (some iif_loopback) none invalid_uid
      invalid_uid

unfoldable pub vpn_fallthrough_rule : ℕ → ℕ → ℕ → Rule
unfolding mark_rule empty_mark
vpn_fallthrough_rule vpn_net_id table permission =
    mark_rule rule_priority_vpn_fallthrough table
      (record empty_mark { net_id = vpn_net_id; permission = permission })
      (record empty_mark { net_id = fwmark_net_id_mask; permission = permission })

-- `addLegacyRouteRules`
unfoldable pub legacy_route_rules : List Rule
unfolding mark_rule empty_mark
legacy_route_rules =
    let mask = record empty_mark { explicitly_selected = true } in
    mark_rule rule_priority_legacy_system route_table_legacy_system empty_mark mask
    ∷ mark_rule rule_priority_legacy_network route_table_legacy_network empty_mark mask
    ∷ mark_rule rule_priority_vpn_override_system route_table_legacy_system
        (record empty_mark { permission = permission_system })
        (record mask { permission = permission_system })
    ∷ []

-- `addLocalNetworkRules`
unfoldable pub initial_local_network_rules : ℕ → List Rule
unfolding explicit_network_rule mark_rule empty_mark
initial_local_network_rules local_net_id =
    explicit_network_rule local_net_id route_table_local_network permission_none invalid_uid
      invalid_uid sub_priority_highest
    ∷ mark_rule rule_priority_local_network route_table_local_network empty_mark
        (record empty_mark { explicitly_selected = true })
    ∷ []

-- `addUnreachableRule`
unfoldable pub last_rule : Rule
unfolding table_rule empty_mark
last_rule =
    record (table_rule rule_priority_unreachable rt_table_unspec empty_mark empty_mark none none
      invalid_uid invalid_uid) { rule_type = unreachable_rule }
