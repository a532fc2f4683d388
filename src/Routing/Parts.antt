-- ===== src/Routing/Parts.antt =====
-- The functions for parts of a network do the steps of their plans, for adding and removing alike.
use system_netd.Prelude.{ℕ, Bool, true, false, List, ◌++◌, ◌==◌}
use system_netd.Prelude.Int.{ℤ}
use system_netd.Prelude.Keys.{Name, name_key}
use system_netd.Prelude.Steps.{Step, ◌>>◌, when}
use system_netd.Prelude.Performs.{Performs->>, Performs-when}
use system_netd.Fwmark.{permission_none}
use system_netd.Platform.{UidRangeMap}
use system_netd.Network.{sub_priority_highest}
use system_netd.Routing.{Netlink, invalid_uid}
use system_netd.Routing.Rules.{
  vpn_output_to_local_rule, vpn_uid_range_rule, vpn_system_permission_rule, explicit_network_rule,
  local_network_rules, output_interface_rules, implicit_network_rule, uid_root,
}
use system_netd.Routing.UidRules.{uid_unreachable_rule, uid_default_unreachable_rule}
use system_netd.Routing.Networks.{
  each_range, modify_vpn_range, modify_whole_virtual_network, modify_whole_physical_network,
  modify_unreachable_range,
}
use system_netd.Routing.Plans.{
  Item, perform, vpn_range_plan, whole_vpn_plan, virtual_plan, whole_physical_plan,
  unreachable_range_plan,
}
use system_netd.Routing.Performed.{
  Specified, DoesOn, does_rule, does_mark, does_rules, does_uid_rule, ranges_performed, always,
}

module _ {W : Type 0} (netlink : Netlink W) (add : Bool) where
  abbrev then_do :
      (xs ys : List Item) (m k : Step W)
      → DoesOn netlink add xs m
      → DoesOn netlink add ys k
      → DoesOn netlink add (xs ++ ys) (m >> k)
  then_do xs ys m k = Performs->> (perform netlink add) (λ w. w) xs ys m k

  does_vpn_range :
      (net_id : ℕ) (interface : Name) (table : ℕ) (secure exclude : Bool) (sub : ℤ) (start stop : ℕ)
      → DoesOn netlink add
          (vpn_range_plan net_id interface table secure exclude sub start stop)
          (modify_vpn_range netlink add net_id interface table secure exclude sub start stop)
  unfolding vpn_range_plan modify_vpn_range
  does_vpn_range net_id interface table secure exclude sub start stop =
      then_do _ _ _ _
        (then_do _ _ _ _
          (does_rule netlink add (vpn_uid_range_rule table start stop sub secure exclude))
          (does_rule netlink add
            (explicit_network_rule net_id table permission_none start stop sub)))
        (does_rules netlink add
          (output_interface_rules interface table permission_none start stop sub))

  does_whole_vpn :
      (net_id : ℕ) (interface : Name) (table : ℕ) (secure exclude : Bool)
      → DoesOn netlink add
          (whole_vpn_plan net_id interface table secure exclude)
          (modify_whole_virtual_network netlink add net_id interface table secure exclude)
  unfolding whole_vpn_plan modify_whole_virtual_network
  does_whole_vpn net_id interface table secure exclude =
      then_do _ _ _ _
        (then_do _ _ _ _
          (then_do _ _ _ _ (does_mark netlink add net_id interface permission_none)
            (does_rule netlink add (vpn_output_to_local_rule interface)))
          (does_rule netlink add (vpn_system_permission_rule net_id table secure exclude)))
        (does_rule netlink add (
          explicit_network_rule net_id table permission_none uid_root uid_root
            sub_priority_highest))

  pub does_virtual :
      (net_id : ℕ) (interface : Name) (uid_range_map : UidRangeMap) (secure whole exclude : Bool)
      (table : ℕ)
      → DoesOn netlink add
          (virtual_plan net_id interface uid_range_map secure whole exclude table)
          (each_range uid_range_map
              (modify_vpn_range netlink add net_id interface table secure exclude)
            >> when whole
                (modify_whole_virtual_network netlink add net_id interface table secure exclude))
  unfolding virtual_plan
  does_virtual net_id interface uid_range_map secure whole exclude table =
      then_do _ _ _ _
        (ranges_performed netlink add (λ w. w)
          (vpn_range_plan net_id interface table secure exclude)
          (modify_vpn_range netlink add net_id interface table secure exclude) uid_range_map
          (always _ (does_vpn_range net_id interface table secure exclude) uid_range_map))
        (Performs-when (perform netlink add) (λ w. w) whole _ _
          (does_whole_vpn net_id interface table secure exclude))

  pub does_unreachable_range :
      (net_id : ℕ) (sub : ℤ) (start stop : ℕ)
      → Specified start stop
      → DoesOn netlink add
          (unreachable_range_plan net_id sub start stop)
          (modify_unreachable_range netlink add net_id sub start stop)
  unfolding unreachable_range_plan modify_unreachable_range
  does_unreachable_range net_id sub start stop h =
      then_do _ _ _ _
        (then_do _ _ _ _
          (does_uid_rule netlink add start stop (uid_unreachable_rule net_id start stop sub true) h)
          (does_uid_rule netlink add start stop (uid_unreachable_rule net_id start stop sub false)
            h))
        (does_uid_rule netlink add start stop (uid_default_unreachable_rule start stop sub) h)

  pub does_whole_physical :
      (local_net_id net_id : ℕ) (interface : Name) (table permission : ℕ) (local : Bool)
      → DoesOn netlink add
          (whole_physical_plan local_net_id net_id interface table permission local)
          (modify_whole_physical_network netlink add local_net_id net_id interface table permission
            local)
  unfolding whole_physical_plan modify_whole_physical_network
  does_whole_physical local_net_id net_id interface table permission local =
      then_do _ _ _ _
        (then_do _ _ _ _
          (then_do _ _ _ _
            (then_do _ _ _ _ (does_mark netlink add net_id interface permission) (
              does_rule netlink add (
                explicit_network_rule net_id table permission invalid_uid invalid_uid
                  sub_priority_highest)))
            (Performs-when (perform netlink add) (λ w. w) local _ _
              (does_rules netlink add (local_network_rules local_net_id table))))
          (does_rules netlink add (
            output_interface_rules interface table permission invalid_uid invalid_uid
              sub_priority_highest)))
        (Performs-when (perform netlink add) (λ w. w) (permission == permission_none) _ _
          (does_rule netlink add (implicit_network_rule net_id table)))
