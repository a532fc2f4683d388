-- ===== src/Controller/Changes.antt =====
-- The operations of server/NetworkController.cpp on a network that exists: its destruction, its
-- interfaces, its users and its permission.
pub mod Destroyed
pub mod Owner
use system_netd.Prelude.{
  ℕ, zero, suc, Bool, true, false, not, ◌&&◌, ◌||◌, Option, none, some, List, [], ◌∷◌, ◌==◌,
  if◌then◌else◌,
}
use system_netd.Prelude.Int.{ℤ}
use system_netd.Prelude.Keys.{Name, nat_key}
use system_netd.Prelude.Steps.{Step, ◌>>◌, and_then, succeed, fail, update, for_each}
use system_netd.Containers.Map
use system_netd.Containers.Map.{Map}
use system_netd.UidRanges
use system_netd.UidRanges.{UidRanges}
use system_netd.Errno.{einval, enonet, ebusy}
use system_netd.Platform.{Platform}
use system_netd.Network.{Network, Kind, physical, is_virtual, can_add_users}
use system_netd.Network.Physical
use system_netd.Network.Dispatch
use system_netd.Controller.{
  Controller, get_network, get_network_for_interface, vpns, run_on, netid_unset,
}
use system_netd.Controller.Lifecycle.{modify_fallthrough, update_polling, physical_at}

-- the loop that erases the entries of a network from `mIfindexToLastNetId`
unfoldable pub forget_network : ℕ → Map ℕ ℕ → Map ℕ ℕ
forget_network net_id [] = []
forget_network net_id ((ifindex, id) ∷ m) =
    let rest = forget_network net_id m in if id == net_id then rest else (ifindex, id) ∷ rest

abbrev first_error : ℕ → ℕ → ℕ
first_error a b = if a == 0 then b else a

module _ {W : Type 0} (p : Platform W) where
  -- the call of `removeAsDefault` and the reset of the default network
  unfoldable pub leave_default : ℕ → ℕ → Controller W → ℕ × Controller W
  leave_default net_id ret c =
      let r =
        physical_at 0 0 (Physical.remove_as_default p (vpns c)) net_id (get_network c net_id) c in
      (first_error ret r.0, record (r.1) { default_net_id = netid_unset })

  unfoldable pub leave_vpn : ℕ → ℕ → Controller W → ℕ × Controller W
  leave_vpn net_id ret c = let r = modify_fallthrough p net_id false c in (first_error ret r.0, r.1)

  -- what `destroyNetwork` does behind `clearInterfaces`, up to the removal from the maps
  unfoldable pub detach : ℕ → Network → ℕ × Controller W → ℕ × Controller W
  unfolding leave_default leave_vpn
  detach net_id n (ret, c) =
      if c.default_net_id == net_id
      then leave_default net_id ret c
      else if is_virtual n
      then leave_vpn net_id ret c
      else (ret, c)

  unfoldable pub drop_network : ℕ → ℕ × Controller W → ℕ × Controller W
  unfolding forget_network update_polling
  drop_network net_id (ret, c) = (
    ret,
    update_polling p (record c {
      networks = Map.erase net_id c.networks;
      ifindex_to_last_net_id = forget_network net_id c.ifindex_to_last_net_id;
    }),
  )

  unfoldable pub destroy_found : ℕ → Option Network → Step (Controller W)
  unfolding detach drop_network
  destroy_found net_id none c = (enonet, c)
  destroy_found net_id (some n) c =
      drop_network net_id
        (detach net_id n (run_on net_id n (Dispatch.clear_interfaces p (vpns c)) c))

  unfoldable pub destroy_network : ℕ → Step (Controller W)
  unfolding destroy_found
  destroy_network net_id c =
      if net_id == p.local_net_id || net_id == p.unreachable_net_id
      then (einval, c)
      else destroy_found net_id (get_network c net_id) c

  -- the update of `mIfindexToLastNetId`
  unfoldable pub record_ifindex : ℕ → Name → Controller W → Controller W
  record_ifindex net_id interface c =
      let ifindex = p.routes.get_if_index c.world interface in
      if net_id == p.local_net_id || ifindex == 0
      then c
      else record c { ifindex_to_last_net_id = Map.insert ifindex net_id c.ifindex_to_last_net_id }

  unfoldable pub add_interface_to : ℕ → Name → Option Network → Step (Controller W)
  unfolding record_ifindex
  add_interface_to net_id interface none c = (enonet, c)
  add_interface_to net_id interface (some n) c =
      let existing = get_network_for_interface c interface in
      if not (existing == netid_unset) && not (existing == net_id)
      then (ebusy, c)
      else (run_on net_id n (Dispatch.add_interface p (vpns c) interface)
            >> update (record_ifindex net_id interface))
          c

  unfoldable pub add_interface_to_network : ℕ → Name → Step (Controller W)
  unfolding add_interface_to
  add_interface_to_network net_id interface c =
      add_interface_to net_id interface (get_network c net_id) c

  unfoldable pub remove_interface_from : ℕ → Name → Option Network → Step (Controller W)
  remove_interface_from net_id interface none c = (enonet, c)
  remove_interface_from net_id interface (some n) c =
      run_on net_id n (Dispatch.remove_interface p (vpns c) interface) c

  unfoldable pub remove_interface_from_network : ℕ → Name → Step (Controller W)
  unfolding remove_interface_from
  remove_interface_from_network net_id interface c =
      remove_interface_from net_id interface (get_network c net_id) c

  -- the loop of `setPermissionForNetworks`, which stops at the first error
  unfoldable pub set_permission_for_networks : ℕ → List ℕ → Step (Controller W)
  unfolding physical_at
  set_permission_for_networks permission net_ids = for_each net_ids (λ net_id c.
      physical_at enonet einval (λ f. Physical.set_permission p (vpns c) f permission) net_id
        (get_network c net_id) c)

  -- `isWrongNetworkForUidRanges`, and the call behind it
  unfoldable pub change_users : ℕ → Step (Network × W) → Option Network → Step (Controller W)
  change_users net_id m none = fail enonet
  change_users net_id m (some n) = if not (can_add_users n) then fail einval else run_on net_id n m

  unfoldable pub add_users_to_network : ℕ → UidRanges → ℤ → Step (Controller W)
  unfolding change_users
  add_users_to_network net_id ranges priority c =
      change_users net_id (Dispatch.add_users p (vpns c) ranges priority) (get_network c net_id) c

  unfoldable pub remove_users_from_network : ℕ → UidRanges → ℤ → Step (Controller W)
  unfolding change_users
  remove_users_from_network net_id ranges priority c =
      change_users net_id (Dispatch.remove_users p (vpns c) ranges priority) (get_network c net_id)
        c
