-- ===== src/Routing/Api.antt =====
-- server/RouteController.cpp: what the other parts of netd call.
pub mod Tethering
pub mod Instance
use system_netd.Prelude.{
  ℕ, zero, suc, ◌+◌, ◌-◌, ◌%◌, ◌^◌, Bool, true, false, ◌&&◌, not, none, some, List, [], ◌∷◌, ◌++◌,
  bytes, ◌==◌, if◌then◌else◌,
}
use system_netd.Prelude.Keys.{Name, name_key}
use system_netd.Prelude.Steps.{Step, ◌>>◌, fail, succeed, update, ignore, when, for_each, on_second}
use system_netd.Containers.Map.{Map, insert, erase}
use system_netd.Errno.{enoent}
use system_netd.Fwmark.{empty_mark, permission_none}
use system_netd.UidRanges.{UidRanges}
use system_netd.Platform.{UidRangeMap}
use system_netd.Network.{sub_priority_highest}
use system_netd.RouteTables.{
  Kernel, State, route_table_local_network, route_table_legacy_network, route_table_legacy_system,
  route_table_offset_from_index, route_table_offset_from_index_for_local, flush_routes,
}
use system_netd.Routing.{Netlink, modify_ip_rule, invalid_uid}
use system_netd.Routing.Rules.{
  output_interface_rules, legacy_route_rules, initial_local_network_rules, last_rule,
}
use system_netd.Routing.UidRules.{tethering_rule}
use system_netd.Routing.Networks.{
  modify_rules, modify_incoming_packet_mark, modify_physical_network, modify_virtual_network,
  modify_unreachable_network, modify_reject_non_secure_network_rule, modify_default_network,
  modify_tethered_network, modify_vpn_fallthrough_rule, modify_vpn_local_exclusion_rule, with_table,
}
use system_netd.Routing.Routes.{Routes, Texts, create_route, modify_ip_route}
use system_netd.Routing.LocalRoutes.{add_fixed_local_routes}
use system_netd.Routing.Upkeep.{
  clear_tethering_rules, clear_all_tethering_rules, is_clat, interface_names, table_names,
}

module _ {W : Type 0} (kernel : Kernel W) (netlink : Netlink W) where
  unfoldable pub maybe_modify_qdisc_clsact : Name → Bool → W → W
  unfolding is_clat
  maybe_modify_qdisc_clsact interface add w =
      if is_clat interface && add
      then w
      else if kernel.if_name_to_index w interface == 0
      then w
      else netlink.tc_qdisc_clsact add (kernel.if_name_to_index w interface) w

  unfoldable pub update_table_names_file : State W → State W
  unfolding table_names
  update_table_names_file (tables, w) = (tables, netlink.write_table_names (table_names tables) w)

  unfoldable pub modify_local_network : Bool → ℕ → Name → Step W
  unfolding modify_incoming_packet_mark maybe_modify_qdisc_clsact modify_rules
  modify_local_network add net_id interface =
      modify_incoming_packet_mark netlink add net_id interface permission_none
      >> update (maybe_modify_qdisc_clsact interface add)
      >> modify_rules netlink add (
          output_interface_rules interface route_table_local_network permission_none invalid_uid
            invalid_uid sub_priority_highest)

  unfoldable pub add_interface_to_local_network : ℕ → Name → Step (State W)
  unfolding modify_local_network insert
  add_interface_to_local_network net_id interface =
      on_second (modify_local_network true net_id interface)
      >> update (λ s. (insert interface route_table_local_network s.0, s.1))

  unfoldable pub remove_interface_from_local_network : ℕ → Name → Step (State W)
  unfolding modify_local_network erase
  remove_interface_from_local_network net_id interface =
      on_second (modify_local_network false net_id interface)
      >> update (λ s. (erase interface s.0, s.1))

  unfoldable pub add_users_to_unreachable_network : ℕ → UidRangeMap → Step W
  unfolding modify_unreachable_network
  add_users_to_unreachable_network net_id uid_range_map =
      modify_unreachable_network netlink true net_id uid_range_map

  unfoldable pub remove_users_from_unreachable_network : ℕ → UidRangeMap → Step W
  unfolding modify_unreachable_network
  remove_users_from_unreachable_network net_id uid_range_map =
      modify_unreachable_network netlink false net_id uid_range_map

  unfoldable pub add_users_to_reject_non_secure_network_rule : UidRanges → Step W
  unfolding modify_reject_non_secure_network_rule
  add_users_to_reject_non_secure_network_rule uid_ranges =
      modify_reject_non_secure_network_rule netlink true uid_ranges

  unfoldable pub remove_users_from_reject_non_secure_network_rule : UidRanges → Step W
  unfolding modify_reject_non_secure_network_rule
  remove_users_from_reject_non_secure_network_rule uid_ranges =
      modify_reject_non_secure_network_rule netlink false uid_ranges

  unfoldable pub add_interface_to_virtual_network :
      ℕ → Name → Bool → UidRangeMap → Bool → Step (State W)
  unfolding modify_virtual_network update_table_names_file
  add_interface_to_virtual_network net_id interface secure uid_range_map exclude_local_routes =
      modify_virtual_network kernel netlink true net_id interface uid_range_map secure true
        exclude_local_routes
      >> update update_table_names_file

  unfoldable pub remove_interface_from_virtual_network :
      ℕ → Name → Bool → UidRangeMap → Bool → Step (State W)
  unfolding modify_virtual_network update_table_names_file flush_routes
  remove_interface_from_virtual_network net_id interface secure uid_range_map exclude_local_routes =
      modify_virtual_network kernel netlink false net_id interface uid_range_map secure true
        exclude_local_routes
      >> flush_routes kernel interface
      >> update update_table_names_file

  unfoldable pub add_users_to_virtual_network :
      ℕ → Name → Bool → UidRangeMap → Bool → Step (State W)
  unfolding modify_virtual_network
  add_users_to_virtual_network net_id interface secure uid_range_map exclude_local_routes =
      modify_virtual_network kernel netlink true net_id interface uid_range_map secure false
        exclude_local_routes

  unfoldable pub remove_users_from_virtual_network :
      ℕ → Name → Bool → UidRangeMap → Bool → Step (State W)
  unfolding modify_virtual_network
  remove_users_from_virtual_network net_id interface secure uid_range_map exclude_local_routes =
      modify_virtual_network kernel netlink false net_id interface uid_range_map secure false
        exclude_local_routes

  unfoldable pub add_interface_to_default_network : Name → ℕ → Step (State W)
  unfolding modify_default_network
  add_interface_to_default_network interface permission =
      modify_default_network kernel netlink true interface permission

  unfoldable pub remove_interface_from_default_network : Name → ℕ → Step (State W)
  unfolding modify_default_network
  remove_interface_from_default_network interface permission =
      modify_default_network kernel netlink false interface permission

  unfoldable pub enable_tethering : Name → Name → Step (State W)
  unfolding modify_tethered_network
  enable_tethering input_interface output_interface =
      modify_tethered_network kernel netlink true input_interface output_interface

  unfoldable pub disable_tethering : Name → Name → Step (State W)
  unfolding modify_tethered_network
  disable_tethering input_interface output_interface =
      modify_tethered_network kernel netlink false input_interface output_interface

  unfoldable pub add_virtual_network_fallthrough : ℕ → Name → ℕ → Step (State W)
  unfolding modify_vpn_fallthrough_rule modify_vpn_local_exclusion_rule
  add_virtual_network_fallthrough vpn_net_id physical_interface permission =
      modify_vpn_fallthrough_rule kernel netlink true vpn_net_id physical_interface permission
      >> modify_vpn_local_exclusion_rule kernel netlink true physical_interface

  unfoldable pub remove_virtual_network_fallthrough : ℕ → Name → ℕ → Step (State W)
  unfolding modify_vpn_fallthrough_rule modify_vpn_local_exclusion_rule
  remove_virtual_network_fallthrough vpn_net_id physical_interface permission =
      modify_vpn_fallthrough_rule kernel netlink false vpn_net_id physical_interface permission
      >> modify_vpn_local_exclusion_rule kernel netlink false physical_interface

-- `local_net_id` is INetd::LOCAL_NET_ID; the argument `local` of the source says whether a physical
-- network is local.
module _ {W : Type 0} (kernel : Kernel W) (netlink : Netlink W) (local_net_id : ℕ) where
  unfoldable pub remove_interface_from_physical_network :
      ℕ → Name → ℕ → UidRangeMap → Bool → Step (State W)
  unfolding modify_physical_network flush_routes clear_all_tethering_rules maybe_modify_qdisc_clsact
      update_table_names_file
  remove_interface_from_physical_network net_id interface permission uid_range_map local =
      modify_physical_network kernel netlink false local_net_id net_id interface uid_range_map
        permission true local
      >> flush_routes kernel interface
      >> on_second (clear_all_tethering_rules netlink interface)
      >> update (λ s. (s.0, maybe_modify_qdisc_clsact kernel netlink interface false s.1))
      >> update (update_table_names_file kernel netlink)

  -- The new rules come before the old ones go.
  unfoldable pub modify_physical_network_permission : ℕ → Name → ℕ → ℕ → Bool → Step (State W)
  unfolding modify_physical_network
  modify_physical_network_permission net_id interface old_permission new_permission local =
      modify_physical_network kernel netlink true local_net_id net_id interface [] new_permission
        true local
      >> modify_physical_network kernel netlink false local_net_id net_id interface []
          old_permission true local

  unfoldable pub add_users_to_physical_network : ℕ → Name → UidRangeMap → Bool → Step (State W)
  unfolding modify_physical_network
  add_users_to_physical_network net_id interface uid_range_map local =
      modify_physical_network kernel netlink true local_net_id net_id interface uid_range_map
        permission_none false local

  unfoldable pub remove_users_from_physical_network : ℕ → Name → UidRangeMap → Bool → Step (State W)
  unfolding modify_physical_network
  remove_users_from_physical_network net_id interface uid_range_map local =
      modify_physical_network kernel netlink false local_net_id net_id interface uid_range_map
        permission_none false local

module _ {W : Type 0} (kernel : Kernel W) (netlink : Netlink W) (routes : Routes W) (texts : Texts)
    (local_net_id : ℕ) where
  unfoldable pub add_interface_to_physical_network :
      ℕ → Name → ℕ → UidRangeMap → Bool → Step (State W)
  unfolding modify_physical_network maybe_modify_qdisc_clsact update_table_names_file
      add_fixed_local_routes
  add_interface_to_physical_network net_id interface permission uid_range_map local =
      modify_physical_network kernel netlink true local_net_id net_id interface uid_range_map
        permission true local
      >> update (λ s. (s.0, maybe_modify_qdisc_clsact kernel netlink interface true s.1))
      >> update (update_table_names_file kernel netlink)
      >> add_fixed_local_routes kernel routes texts interface

  -- `ifc_up` is the state of an interface, a call of libnetutils.
  unfoldable pub configure_dummy_network : (Name → Step W) → Step (State W)
  unfolding with_table modify_rules modify_ip_route
  configure_dummy_network ifc_up =
      let interface = bytes "dummy0" in
      with_table kernel interface false (λ table. on_second (
        ifc_up interface
        >> modify_rules netlink true (
            output_interface_rules interface table permission_none invalid_uid invalid_uid
              sub_priority_highest)
        >> modify_ip_route kernel routes texts create_route table (some interface)
            (some (bytes "0.0.0.0/0")) none 0 0
        >> modify_ip_route kernel routes texts create_route table (some interface)
            (some (bytes "::/0")) none 0 0))

  unfoldable pub init : (Name → Step W) → Step (State W)
  unfolding modify_rules configure_dummy_network update_table_names_file
  init ifc_up =
      on_second (
        netlink.flush_rules
        >> modify_rules netlink true legacy_route_rules
        >> modify_rules netlink true (initial_local_network_rules local_net_id)
        >> modify_ip_rule netlink true last_rule)
      >> ignore (configure_dummy_network ifc_up)
      >> update (update_table_names_file kernel netlink)
