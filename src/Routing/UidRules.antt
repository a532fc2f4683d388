-- ===== src/Routing/UidRules.antt =====
-- server/RouteController.cpp: the rules for ranges of UIDs, the default network and tethering.
use system_netd.Routing.Rules.{fwmark_net_id_mask, net_id_unset, iif_loopback, table_rule}
use system_netd.Prelude.{ℕ, Bool, true, none, some, if◌then◌else◌}
use system_netd.Prelude.Int.{ℤ, ◌+ℤ◌}
use system_netd.Prelude.Keys.{Name}
use system_netd.Fwmark.{empty_mark}
use system_netd.RouteTables.{rt_table_unspec}
use system_netd.Routing.{Rule, unreachable_rule, prohibit_rule, invalid_uid}
use system_netd.Routing.Priorities.{
  rule_priority_prohibit_non_vpn, rule_priority_uid_explicit_network, rule_priority_tethering,
  rule_priority_uid_implicit_network, rule_priority_uid_local_routes,
  rule_priority_uid_default_network, rule_priority_uid_default_unreachable,
  rule_priority_default_network,
}

unfoldable pub uid_network_rule : ℕ → ℕ → ℕ → ℕ → ℤ → Bool → Rule
unfolding table_rule empty_mark
uid_network_rule net_id table uid_start uid_end sub_priority explicit_select =
    table_rule
      ((if explicit_select
          then rule_priority_uid_explicit_network
          else rule_priority_uid_implicit_network)
        +ℤ sub_priority)
      table (record empty_mark { net_id = net_id; explicitly_selected = explicit_select })
      (record empty_mark { net_id = fwmark_net_id_mask; explicitly_selected = true })
      (some iif_loopback) none uid_start uid_end

unfoldable pub uid_default_network_rule : ℕ → ℕ → ℕ → ℤ → Rule
unfolding table_rule empty_mark
uid_default_network_rule table uid_start uid_end sub_priority =
    table_rule (rule_priority_uid_default_network +ℤ sub_priority) table
      (record empty_mark { net_id = net_id_unset })
      (record empty_mark { net_id = fwmark_net_id_mask }) (some iif_loopback) none uid_start uid_end

unfoldable pub uid_local_network_rule : ℕ → ℕ → ℕ → Rule
unfolding table_rule empty_mark
uid_local_network_rule table uid_start uid_end =
    table_rule rule_priority_uid_local_routes table empty_mark
      (record empty_mark { explicitly_selected = true }) (some iif_loopback) none uid_start uid_end

unfoldable pub uid_unreachable_rule : ℕ → ℕ → ℕ → ℤ → Bool → Rule
unfolding uid_network_rule
uid_unreachable_rule net_id uid_start uid_end sub_priority explicit_select =
    record (uid_network_rule net_id rt_table_unspec uid_start uid_end sub_priority
      explicit_select) { rule_type = unreachable_rule }

unfoldable pub uid_default_unreachable_rule : ℕ → ℕ → ℤ → Rule
unfolding table_rule empty_mark
uid_default_unreachable_rule uid_start uid_end sub_priority =
    record (table_rule (rule_priority_uid_default_unreachable +ℤ sub_priority) rt_table_unspec
      (record empty_mark { net_id = net_id_unset })
      (record empty_mark { net_id = fwmark_net_id_mask }) (some iif_loopback) none uid_start
      uid_end) { rule_type = unreachable_rule }

-- `modifyRejectNonSecureNetworkRule`, for one range
unfoldable pub reject_non_secure_rule : ℕ → ℕ → Rule
unfolding table_rule empty_mark
reject_non_secure_rule uid_start uid_end =
    record (table_rule rule_priority_prohibit_non_vpn rt_table_unspec empty_mark
      (record empty_mark { protected_from_vpn = true }) (some iif_loopback) none uid_start
      uid_end) { rule_type = prohibit_rule }

unfoldable pub default_network_rule : ℕ → ℕ → Rule
unfolding table_rule empty_mark
default_network_rule table permission =
    table_rule rule_priority_default_network table
      (record empty_mark { net_id = net_id_unset; permission = permission })
      (record empty_mark { net_id = fwmark_net_id_mask; permission = permission })
      (some iif_loopback) none invalid_uid invalid_uid

unfoldable pub tethering_rule : ℕ → Name → Rule
unfolding table_rule empty_mark
tethering_rule table input_interface =
    table_rule rule_priority_tethering table empty_mark empty_mark (some input_interface) none
      invalid_uid invalid_uid
