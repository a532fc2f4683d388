-- ===== src/Network/Simple.antt =====
-- server/VirtualNetwork.cpp, server/UnreachableNetwork.cpp and server/LocalNetwork.cpp.
use system_netd.Prelude.{Bool, not, ◌||◌, [], ◌∷◌, if◌then◌else◌}
use system_netd.Prelude.Int.{ℤ}
use system_netd.Prelude.Keys.{Name, name_key}
use system_netd.Prelude.Steps.{Step, for_each, commit}
use system_netd.UidRanges.{UidRanges}
use system_netd.Errno.{einval}
use system_netd.Platform.{Platform, UidRangeMap}
use system_netd.Network.{
  Network, has_interface, insert_interface, erase_interface, is_valid_sub_priority,
  can_add_uid_ranges, add_to_uid_range_map, remove_from_uid_range_map,
}

abbrev at_priority : ℤ → UidRanges → UidRangeMap
at_priority sub_priority ranges = (sub_priority, ranges) ∷ []

module _ {W : Type 0} (p : Platform W) (exclude_local_routes : Bool) where
  unfoldable pub add_users_to_virtual : UidRanges → ℤ → Step (Network × W)
  add_users_to_virtual ranges sub_priority (n, w) =
      if not (is_valid_sub_priority n sub_priority) || not (can_add_uid_ranges ranges)
      then (einval, (n, w))
      else commit
          (for_each n.interfaces (λ interface.
            p.routes.add_users_to_virtual_network n.net_id interface n.secure
              (at_priority sub_priority ranges) exclude_local_routes))
          (add_to_uid_range_map ranges sub_priority) (n, w)

  unfoldable pub remove_users_from_virtual : UidRanges → ℤ → Step (Network × W)
  remove_users_from_virtual ranges sub_priority (n, w) =
      if not (is_valid_sub_priority n sub_priority)
      then (einval, (n, w))
      else commit
          (for_each n.interfaces (λ interface.
            p.routes.remove_users_from_virtual_network n.net_id interface n.secure
              (at_priority sub_priority ranges) exclude_local_routes))
          (remove_from_uid_range_map ranges sub_priority) (n, w)

  unfoldable pub add_interface_to_virtual : Name → Step (Network × W)
  add_interface_to_virtual interface (n, w) =
      if has_interface n interface
      then (0, (n, w))
      else commit
          (p.routes.add_interface_to_virtual_network n.net_id interface n.secure n.uid_range_map
            exclude_local_routes)
          (insert_interface interface) (n, w)

  unfoldable pub remove_interface_from_virtual : Name → Step (Network × W)
  remove_interface_from_virtual interface (n, w) =
      if not (has_interface n interface)
      then (0, (n, w))
      else commit
          (p.routes.remove_interface_from_virtual_network n.net_id interface n.secure
            n.uid_range_map exclude_local_routes)
          (erase_interface interface) (n, w)

module _ {W : Type 0} (p : Platform W) where
  unfoldable pub add_users_to_unreachable : UidRanges → ℤ → Step (Network × W)
  add_users_to_unreachable ranges sub_priority (n, w) =
      if not (is_valid_sub_priority n sub_priority) || not (can_add_uid_ranges ranges)
      then (einval, (n, w))
      else commit
          (p.routes.add_users_to_unreachable_network n.net_id (at_priority sub_priority ranges))
          (add_to_uid_range_map ranges sub_priority) (n, w)

  unfoldable pub remove_users_from_unreachable : UidRanges → ℤ → Step (Network × W)
  remove_users_from_unreachable ranges sub_priority (n, w) =
      if not (is_valid_sub_priority n sub_priority)
      then (einval, (n, w))
      else commit
          (p.routes.remove_users_from_unreachable_network n.net_id
            (at_priority sub_priority ranges))
          (remove_from_uid_range_map ranges sub_priority) (n, w)

  unfoldable pub add_interface_to_local : Name → Step (Network × W)
  add_interface_to_local interface (n, w) =
      if has_interface n interface
      then (0, (n, w))
      else commit (p.routes.add_interface_to_local_network n.net_id interface)
          (insert_interface interface) (n, w)

  unfoldable pub remove_interface_from_local : Name → Step (Network × W)
  remove_interface_from_local interface (n, w) =
      if not (has_interface n interface)
      then (0, (n, w))
      else commit (p.routes.remove_interface_from_local_network n.net_id interface)
          (erase_interface interface) (n, w)
