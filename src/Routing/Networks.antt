-- ===== src/Routing/Networks.antt =====
-- server/RouteController.cpp: the rules of whole networks. The state is the map from interfaces to
-- tables and the kernel's.
use system_netd.Prelude.{ℕ, Bool, true, false, ◌||◌, not, List, ◌==◌, if◌then◌else◌}
use system_netd.Prelude.Int.{ℤ, pos, eqb_ℤ, to_uint32}
use system_netd.Prelude.Keys.{Name, name_key}
use system_netd.Prelude.Steps.{Step, ◌>>◌, fail, when, for_each, on_second}
use system_netd.Errno.{esrch, eremoteio, eusers}
use system_netd.Fwmark.{permission_none}
use system_netd.UidRanges.{UidRanges}
use system_netd.Platform.{UidRangeMap}
use system_netd.Network.{sub_priority_highest}
use system_netd.RouteTables.{Kernel, State, get_route_table_for_interface, rt_table_unspec}
use system_netd.Routing.{Netlink, Rule, modify_ip_rule, invalid_uid}
use system_netd.Routing.Rules.{
  incoming_packet_mark, vpn_output_to_local_rule, vpn_uid_range_rule, vpn_system_permission_rule,
  explicit_network_rule, local_network_rules, output_interface_rules, implicit_network_rule,
  vpn_local_exclusion_rule, vpn_fallthrough_rule, uid_root,
}
use system_netd.Routing.UidRules.{
  uid_network_rule, uid_default_network_rule, uid_local_network_rule, uid_unreachable_rule,
  uid_default_unreachable_rule, reject_non_secure_rule, default_network_rule, tethering_rule,
}

abbrev pub sub_priority_no_default : ℤ
sub_priority_no_default = pos 999

-- The loop over the ranges of a map, and within each entry over its ranges.
unfoldable pub each_range : {S : Type 0} → UidRangeMap → (ℤ → ℕ → ℕ → Step S) → Step S
each_range uid_range_map body =
    for_each uid_range_map
      (λ e. for_each e.1.ranges (λ r. body e.0 (to_uint32 r.start) (to_uint32 r.stop)))

module _ {W : Type 0} (netlink : Netlink W) (add : Bool) where
  unfoldable pub modify_rules : List Rule → Step W
  modify_rules rules = for_each rules (modify_ip_rule netlink add)

  unfoldable pub modify_incoming_packet_mark : ℕ → Name → ℕ → Step W
  modify_incoming_packet_mark net_id interface permission w =
      let ret = netlink.iptables_restore (incoming_packet_mark net_id interface permission add) w in
      if ret.0 == 0 then ret else (eremoteio, ret.1)

  -- What `modifyUid…Rule` does first.
  unfoldable pub modify_uid_rule : ℕ → ℕ → Rule → Step W
  modify_uid_rule uid_start uid_end rule =
      if (uid_start == invalid_uid) || (uid_end == invalid_uid)
      then fail eusers
      else modify_ip_rule netlink add rule

  -- One round of the loop of `modifyUnreachableNetwork`
  unfoldable pub modify_unreachable_range : ℕ → ℤ → ℕ → ℕ → Step W
  unfolding modify_uid_rule
  modify_unreachable_range net_id sub start stop =
      modify_uid_rule start stop (uid_unreachable_rule net_id start stop sub true)
      >> modify_uid_rule start stop (uid_unreachable_rule net_id start stop sub false)
      >> modify_uid_rule start stop (uid_default_unreachable_rule start stop sub)

  unfoldable pub modify_unreachable_network : ℕ → UidRangeMap → Step W
  unfolding each_range modify_unreachable_range
  modify_unreachable_network net_id uid_range_map =
      each_range uid_range_map (modify_unreachable_range net_id)

  unfoldable pub modify_reject_non_secure_network_rule : UidRanges → Step W
  modify_reject_non_secure_network_rule uid_ranges = for_each uid_ranges.ranges (λ r.
      modify_ip_rule netlink add (reject_non_secure_rule (to_uint32 r.start) (to_uint32 r.stop)))

  -- What is not for single UIDs in `modifyPhysicalNetwork`.
  unfoldable pub modify_whole_physical_network : ℕ → ℕ → Name → ℕ → ℕ → Bool → Step W
  unfolding modify_incoming_packet_mark modify_rules
  modify_whole_physical_network local_net_id net_id interface table permission local =
      modify_incoming_packet_mark net_id interface permission
      >> modify_ip_rule netlink add (
          explicit_network_rule net_id table permission invalid_uid invalid_uid
            sub_priority_highest)
      >> when local (modify_rules (local_network_rules local_net_id table))
      >> modify_rules (
          output_interface_rules interface table permission invalid_uid invalid_uid
            sub_priority_highest)
      >> when (permission == permission_none)
          (modify_ip_rule netlink add (implicit_network_rule net_id table))

  unfoldable pub modify_whole_virtual_network : ℕ → Name → ℕ → Bool → Bool → Step W
  unfolding modify_incoming_packet_mark
  modify_whole_virtual_network net_id interface table secure exclude_local_routes =
      modify_incoming_packet_mark net_id interface permission_none
      >> modify_ip_rule netlink add (vpn_output_to_local_rule interface)
      >> modify_ip_rule netlink add
          (vpn_system_permission_rule net_id table secure exclude_local_routes)
      >> modify_ip_rule netlink add (
          explicit_network_rule net_id table permission_none uid_root uid_root sub_priority_highest)

  unfoldable pub modify_vpn_range : ℕ → Name → ℕ → Bool → Bool → ℤ → ℕ → ℕ → Step W
  unfolding modify_rules
  modify_vpn_range net_id interface table secure exclude_local_routes sub start stop =
      modify_ip_rule netlink add
        (vpn_uid_range_rule table start stop sub secure exclude_local_routes)
      >> modify_ip_rule netlink add
          (explicit_network_rule net_id table permission_none start stop sub)
      >> modify_rules (output_interface_rules interface table permission_none start stop sub)

module _ {W : Type 0} (kernel : Kernel W) where
  -- A table is looked up; what follows works with it.
  unfoldable pub with_table : Name → Bool → (ℕ → Step (State W)) → Step (State W)
  with_table interface local body s =
      let found = get_route_table_for_interface kernel interface local s in
      if found.0 == rt_table_unspec then (esrch, found.1) else body found.0 found.1

module _ {W : Type 0} (kernel : Kernel W) (netlink : Netlink W) (add : Bool) where
  unfoldable pub modify_uid_local_network_rule : Name → ℕ → ℕ → Step (State W)
  unfolding with_table modify_uid_rule
  modify_uid_local_network_rule interface start stop = with_table kernel interface true (λ table.
      on_second (modify_uid_rule netlink add start stop (uid_local_network_rule table start stop)))

  -- One round of the loop of `modifyPhysicalNetwork`
  unfoldable pub modify_physical_range : ℕ → Name → ℕ → ℤ → ℕ → ℕ → Step (State W)
  unfolding modify_uid_local_network_rule modify_uid_rule
  modify_physical_range net_id interface table sub start stop =
      on_second
        (modify_uid_rule netlink add start stop (uid_network_rule net_id table start stop sub true))
      >> on_second (
          modify_uid_rule netlink add start stop
            (uid_network_rule net_id table start stop sub false))
      >> when (not (eqb_ℤ sub sub_priority_no_default)) (
          on_second
            (modify_uid_rule netlink add start stop (uid_default_network_rule table start stop sub))
          >> modify_uid_local_network_rule interface start stop)

  unfoldable pub modify_physical_network :
      ℕ → ℕ → Name → UidRangeMap → ℕ → Bool → Bool → Step (State W)
  unfolding with_table each_range modify_physical_range modify_whole_physical_network
  modify_physical_network local_net_id net_id interface uid_range_map permission
        modify_non_uid_based_rules local =
      with_table kernel interface false (λ table.
        each_range uid_range_map (modify_physical_range net_id interface table)
        >> when modify_non_uid_based_rules (
            on_second (
              modify_whole_physical_network netlink add local_net_id net_id interface table
                permission local)))

  unfoldable pub modify_virtual_network :
      ℕ → Name → UidRangeMap → Bool → Bool → Bool → Step (State W)
  unfolding with_table each_range modify_vpn_range modify_whole_virtual_network
  modify_virtual_network net_id interface uid_range_map secure modify_non_uid_based_rules
        exclude_local_routes =
      with_table kernel interface false (λ table. on_second (
        each_range uid_range_map
          (modify_vpn_range netlink add net_id interface table secure exclude_local_routes)
        >> when modify_non_uid_based_rules (
            modify_whole_virtual_network netlink add net_id interface table secure
              exclude_local_routes)))

  unfoldable pub modify_default_network : Name → ℕ → Step (State W)
  unfolding with_table
  modify_default_network interface permission =
      with_table kernel interface false
        (λ table. on_second (modify_ip_rule netlink add (default_network_rule table permission)))

  unfoldable pub modify_tethered_network : Name → Name → Step (State W)
  unfolding with_table
  modify_tethered_network input_interface output_interface =
      with_table kernel output_interface false
        (λ table. on_second (modify_ip_rule netlink add (tethering_rule table input_interface)))

  unfoldable pub modify_vpn_fallthrough_rule : ℕ → Name → ℕ → Step (State W)
  unfolding with_table
  modify_vpn_fallthrough_rule vpn_net_id interface permission =
      with_table kernel interface false (λ table.
        on_second (modify_ip_rule netlink add (vpn_fallthrough_rule vpn_net_id table permission)))

  unfoldable pub modify_vpn_local_exclusion_rule : Name → Step (State W)
  unfolding with_table
  modify_vpn_local_exclusion_rule interface =
      with_table kernel interface true
        (λ table. on_second (modify_ip_rule netlink add (vpn_local_exclusion_rule table)))
