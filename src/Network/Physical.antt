-- ===== src/Network/Physical.antt =====
-- server/PhysicalNetwork.h and server/PhysicalNetwork.cpp. `vpns` are the netIds over which the
-- delegate, NetworkController::DelegateImpl, sets up fallthrough rules. Each method takes the fields
-- of its class beside the network.
use system_netd.Prelude.{
  ℕ, zero, suc, ◌==◌, Bool, true, false, not, ◌||◌, some, List, [], ◌∷◌, if◌then◌else◌, bytes,
}
use system_netd.Prelude.Int.{ℤ}
use system_netd.Prelude.Keys.{Name, name_key}
use system_netd.Prelude.Steps.{Step, ◌>>◌, ignore, when, for_each, commit}
use system_netd.UidRanges.{UidRanges}
use system_netd.Errno.{einval, ebadfd}
use system_netd.Fwmark.{permission_none}
use system_netd.Platform.{Platform, UidRangeMap, interface_table}
use system_netd.Network.{
  Network, PhysicalState, physical, has_interface, insert_interface, erase_interface,
  is_valid_sub_priority, can_add_uid_ranges, add_to_uid_range_map, remove_from_uid_range_map,
}

module _ {W : Type 0} (p : Platform W) where
  -- the four-argument `DelegateImpl::modifyFallthrough`
  unfoldable pub modify_fallthrough_of : ℕ → Name → ℕ → Bool → Step W
  modify_fallthrough_of vpn_net_id physical_interface permission add =
      if add
      then p.routes.add_virtual_network_fallthrough vpn_net_id physical_interface permission
      else p.routes.remove_virtual_network_fallthrough vpn_net_id physical_interface permission

  module _ (vpns : List ℕ) where
    -- `addFallthrough` and `removeFallthrough`
    unfoldable pub modify_fallthrough : Name → ℕ → Bool → Step W
    unfolding modify_fallthrough_of
    modify_fallthrough physical_interface permission add =
        for_each vpns (λ vpn. modify_fallthrough_of vpn physical_interface permission add)

    unfoldable pub add_to_default : ℕ → Name → Step W
    unfolding modify_fallthrough
    add_to_default permission interface =
        p.routes.add_interface_to_default_network interface permission
        >> modify_fallthrough interface permission true

    unfoldable pub remove_from_default : ℕ → Name → Step W
    unfolding modify_fallthrough
    remove_from_default permission interface =
        p.routes.remove_interface_from_default_network interface permission
        >> modify_fallthrough interface permission false

  or_ebadfd : Step W → ℕ × W → ℕ × W
  or_ebadfd k (zero, w) = k w
  or_ebadfd k (suc e, w) = (ebadfd, w)

  unfoldable pub destroy_sockets : ℕ → ℕ → Step W
  unfolding or_ebadfd
  destroy_sockets net_id permission w =
      if permission == permission_none
      then (0, w)
      else or_ebadfd (p.destroy_sockets_lacking_permission net_id permission) (p.open_sock_diag w)

  abbrev throw_route_priority : ℕ
  throw_route_priority = 100000

  unfoldable pub invalidate_route_cache : Name → Step W
  invalidate_route_cache interface = for_each (bytes "0.0.0.0/0" ∷ bytes "::/0" ∷ []) (λ dst. do
    ignore (
        p.routes.add_route interface dst (some (bytes "throw")) interface_table 0
          throw_route_priority)
    ignore (
        p.routes.remove_route interface dst (some (bytes "throw")) interface_table
          throw_route_priority))

  abbrev write : PhysicalState → Network → Network
  write g n = record n { kind = physical g }

  module _ (vpns : List ℕ) (f : PhysicalState) where
    -- the part of `setPermission` behind its two early returns
    unfoldable pub move_permission : ℕ → Network → Step W
    unfolding destroy_sockets invalidate_route_cache add_to_default remove_from_default
    move_permission permission n = do
      ignore (destroy_sockets n.net_id permission)
      for_each n.interfaces (λ interface. do
        p.routes.modify_physical_network_permission n.net_id interface f.permission permission
            f.is_local_network
        invalidate_route_cache interface)
      when f.is_default (
          for_each n.interfaces (λ interface. do
            add_to_default vpns permission interface
            remove_from_default vpns f.permission interface))
      ignore (destroy_sockets n.net_id permission)

    unfoldable pub no_interfaces : List Name → Bool
    no_interfaces [] = true
    no_interfaces (i ∷ is) = false

    unfoldable pub set_permission : ℕ → Step (Network × W)
    unfolding move_permission no_interfaces
    set_permission permission (n, w) =
        if permission == f.permission
        then (0, (n, w))
        else if no_interfaces n.interfaces
        then (0, (write (record f { permission = permission }) n, w))
        else commit (move_permission permission n) (write (record f { permission = permission }))
            (n, w)

    unfoldable pub add_as_default : Step (Network × W)
    unfolding add_to_default
    add_as_default (n, w) =
        if f.is_default
        then (0, (n, w))
        else commit (for_each n.interfaces (add_to_default vpns f.permission))
            (write (record f { is_default = true })) (n, w)

    unfoldable pub remove_as_default : Step (Network × W)
    unfolding remove_from_default
    remove_as_default (n, w) =
        if not f.is_default
        then (0, (n, w))
        else commit (for_each n.interfaces (remove_from_default vpns f.permission))
            (write (record f { is_default = false })) (n, w)

    abbrev at_priority : ℤ → UidRanges → UidRangeMap
    at_priority sub_priority ranges = (sub_priority, ranges) ∷ []

    unfoldable pub add_users : UidRanges → ℤ → Step (Network × W)
    add_users ranges sub_priority (n, w) =
        if not (is_valid_sub_priority n sub_priority) || not (can_add_uid_ranges ranges)
        then (einval, (n, w))
        else commit
            (for_each n.interfaces (λ interface.
              p.routes.add_users_to_physical_network n.net_id interface
                (at_priority sub_priority ranges) f.is_local_network))
            (add_to_uid_range_map ranges sub_priority) (n, w)

    unfoldable pub remove_users : UidRanges → ℤ → Step (Network × W)
    remove_users ranges sub_priority (n, w) =
        if not (is_valid_sub_priority n sub_priority)
        then (einval, (n, w))
        else commit
            (for_each n.interfaces (λ interface.
              p.routes.remove_users_from_physical_network n.net_id interface
                (at_priority sub_priority ranges) f.is_local_network))
            (remove_from_uid_range_map ranges sub_priority) (n, w)

    unfoldable pub add_interface : Name → Step (Network × W)
    unfolding add_to_default
    add_interface interface (n, w) =
        if has_interface n interface
        then (0, (n, w))
        else commit
            (do
              p.routes.add_interface_to_physical_network n.net_id interface f.permission
                  n.uid_range_map f.is_local_network
              when f.is_default (add_to_default vpns f.permission interface))
            (insert_interface interface) (n, w)

    unfoldable pub remove_interface : Name → Step (Network × W)
    unfolding remove_from_default
    remove_interface interface (n, w) =
        if not (has_interface n interface)
        then (0, (n, w))
        else commit
            (do
              when f.is_default (remove_from_default vpns f.permission interface)
              p.routes.remove_interface_from_physical_network n.net_id interface f.permission
                  n.uid_range_map f.is_local_network)
            (erase_interface interface) (n, w)
