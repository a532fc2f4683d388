-- ===== src/Routing/Plans.antt =====
-- What adding and removing a network amount to: the list of the rules and marks, which does not say
-- whether they are added or removed. It is the specification of `modify…Network`.
use system_netd.Prelude.{ℕ, Bool, true, false, not, List, [], ◌∷◌, ◌++◌, map, ◌==◌, if◌then◌else◌}
use system_netd.Prelude.Int.{ℤ, eqb_ℤ, to_uint32}
use system_netd.Prelude.Keys.{Name}
use system_netd.Prelude.Steps.{Step}
use system_netd.Prelude.Performs.{concat_map}
use system_netd.Fwmark.{permission_none}
use system_netd.Platform.{UidRangeMap}
use system_netd.Network.{sub_priority_highest}
use system_netd.Routing.{Netlink, Rule, modify_ip_rule, invalid_uid}
use system_netd.Routing.Rules.{
  vpn_output_to_local_rule, vpn_uid_range_rule, vpn_system_permission_rule, explicit_network_rule,
  local_network_rules, output_interface_rules, implicit_network_rule, uid_root,
}
use system_netd.Routing.UidRules.{
  uid_network_rule, uid_default_network_rule, uid_local_network_rule, uid_unreachable_rule,
  uid_default_unreachable_rule,
}
use system_netd.Routing.Networks.{modify_incoming_packet_mark, sub_priority_no_default}

pub data Item : Type 0 where
  rule : Rule → Item
  incoming_mark : ℕ → Name → ℕ → Item

unfoldable pub perform : {W : Type 0} → Netlink W → Bool → Item → Step W
perform netlink add (rule r) = modify_ip_rule netlink add r
perform netlink add (incoming_mark net_id interface permission) =
    modify_incoming_packet_mark netlink add net_id interface permission

unfoldable pub plan_ranges : UidRangeMap → (ℤ → ℕ → ℕ → List Item) → List Item
plan_ranges uid_range_map plan =
    concat_map (λ e. concat_map (λ r. plan e.0 (to_uint32 r.start) (to_uint32 r.stop)) e.1.ranges)
      uid_range_map

unfoldable pub vpn_range_plan : ℕ → Name → ℕ → Bool → Bool → ℤ → ℕ → ℕ → List Item
vpn_range_plan net_id interface table secure exclude sub start stop =
    (rule (vpn_uid_range_rule table start stop sub secure exclude) ∷ [])
    ++ (rule (explicit_network_rule net_id table permission_none start stop sub) ∷ [])
    ++ map rule (output_interface_rules interface table permission_none start stop sub)

unfoldable pub whole_vpn_plan : ℕ → Name → ℕ → Bool → Bool → List Item
whole_vpn_plan net_id interface table secure exclude =
    (incoming_mark net_id interface permission_none ∷ [])
    ++ (rule (vpn_output_to_local_rule interface) ∷ [])
    ++ (rule (vpn_system_permission_rule net_id table secure exclude) ∷ [])
    ++ (rule (
          explicit_network_rule net_id table permission_none uid_root uid_root sub_priority_highest)
        ∷ [])

unfoldable pub virtual_plan : ℕ → Name → UidRangeMap → Bool → Bool → Bool → ℕ → List Item
virtual_plan net_id interface uid_range_map secure whole exclude table =
    plan_ranges uid_range_map (vpn_range_plan net_id interface table secure exclude)
    ++ (if whole then whole_vpn_plan net_id interface table secure exclude else [])

unfoldable pub physical_range_plan : ℕ → ℕ → ℕ → ℤ → ℕ → ℕ → List Item
physical_range_plan net_id table local_table sub start stop =
    (rule (uid_network_rule net_id table start stop sub true) ∷ [])
    ++ (rule (uid_network_rule net_id table start stop sub false) ∷ [])
    ++ (if not (eqb_ℤ sub sub_priority_no_default)
        then (rule (uid_default_network_rule table start stop sub) ∷ [])
          ++ (rule (uid_local_network_rule local_table start stop) ∷ [])
        else [])

unfoldable pub whole_physical_plan : ℕ → ℕ → Name → ℕ → ℕ → Bool → List Item
whole_physical_plan local_net_id net_id interface table permission local =
    (incoming_mark net_id interface permission ∷ [])
    ++ (rule (
          explicit_network_rule net_id table permission invalid_uid invalid_uid
            sub_priority_highest)
        ∷ [])
    ++ (if local then map rule (local_network_rules local_net_id table) else [])
    ++ map rule (
        output_interface_rules interface table permission invalid_uid invalid_uid
          sub_priority_highest)
    ++ (if permission == permission_none
        then rule (implicit_network_rule net_id table) ∷ []
        else [])

unfoldable pub physical_plan : ℕ → ℕ → Name → UidRangeMap → ℕ → Bool → Bool → ℕ → ℕ → List Item
physical_plan local_net_id net_id interface uid_range_map permission whole local table local_table =
    plan_ranges uid_range_map (physical_range_plan net_id table local_table)
    ++ (if whole
        then whole_physical_plan local_net_id net_id interface table permission local
        else [])

unfoldable pub unreachable_range_plan : ℕ → ℤ → ℕ → ℕ → List Item
unreachable_range_plan net_id sub start stop =
    (rule (uid_unreachable_rule net_id start stop sub true) ∷ [])
    ++ (rule (uid_unreachable_rule net_id start stop sub false) ∷ [])
    ++ (rule (uid_default_unreachable_rule start stop sub) ∷ [])

unfoldable pub unreachable_plan : ℕ → UidRangeMap → List Item
unreachable_plan net_id uid_range_map = plan_ranges uid_range_map (unreachable_range_plan net_id)
