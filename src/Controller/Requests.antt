-- ===== src/Controller/Requests.antt =====
-- The operations of server/NetworkController.cpp on users, allowlists and routes.
pub mod Granted
pub mod Listed
pub mod Routes
use system_netd.Prelude.{
  ℕ, Bool, true, false, not, ◌&&◌, ◌||◌, Option, none, some, List, [], ◌∷◌, ◌==◌, if◌then◌else◌,
}
use system_netd.Prelude.Keys.{Name, nat_key}
use system_netd.Prelude.Steps.{Step}
use system_netd.Containers.Map
use system_netd.Containers.Map.{Map}
use system_netd.Containers.OrderedSet
use system_netd.UidRanges
use system_netd.UidRanges.{UidRangeParcel, UidRanges}
use system_netd.Errno.{enonet, enodev, enoent}
use system_netd.Platform.{
  Platform, TableType, interface_table, local_network_table, legacy_network_table,
  legacy_system_table,
}
use system_netd.Network.{Network, clear_allowed_uids, set_allowed_uids}
use system_netd.Controller.{
  Controller, get_network, is_valid_network, get_network_for_interface, is_system_user, run_on,
  netid_unset,
}

pub data RouteOperation : Type 0 where
  route_add route_update route_remove : RouteOperation

-- `netd::aidl::NativeUidRangeConfig`
pub record UidRangeConfig : Type 0 where
  pub net_id : ℕ
  pub uid_ranges : List UidRangeParcel

unfoldable pub assign_all : ℕ → List ℕ → Map ℕ ℕ → Map ℕ ℕ
assign_all permission [] users = users
assign_all permission (uid ∷ uids) users =
    assign_all permission uids (Map.insert uid permission users)

unfoldable pub insert_all : List ℕ → List ℕ → List ℕ
insert_all [] s = s
insert_all (uid ∷ uids) s = insert_all uids (OrderedSet.insert uid s)

unfoldable pub erase_all : List ℕ → List ℕ → List ℕ
erase_all [] s = s
erase_all (uid ∷ uids) s = erase_all uids (OrderedSet.erase uid s)

unfoldable pub clear_all : Map ℕ Network → Map ℕ Network
clear_all [] = []
clear_all ((id, n) ∷ ns) = (id, clear_allowed_uids n) ∷ clear_all ns

unfoldable pub is_some : Option Network → Bool
is_some none = false
is_some (some n) = true

unfoldable pub all_exist : List UidRangeConfig → Map ℕ Network → Bool
unfolding is_some
all_exist [] ns = true
all_exist (config ∷ configs) ns = is_some (Map.find config.net_id ns) && all_exist configs ns

-- one round of the second loop of `setNetworkAllowlist`
unfoldable pub allow_on : UidRangeConfig → Option Network → Map ℕ Network → Map ℕ Network
allow_on config none ns = ns
allow_on config (some n) ns =
    Map.insert config.net_id (set_allowed_uids (UidRanges.from_parcels config.uid_ranges) n) ns

unfoldable pub allow_all : List UidRangeConfig → Map ℕ Network → Map ℕ Network
unfolding allow_on
allow_all [] ns = ns
allow_all (config ∷ configs) ns = allow_all configs (allow_on config (Map.find config.net_id ns) ns)

module _ {W : Type 0} where
  unfoldable pub set_permission_for_users : ℕ → List ℕ → Controller W → Controller W
  unfolding assign_all
  set_permission_for_users permission uids c = record c {
    users = assign_all permission uids c.users;
  }

  unfoldable pub allow_protect : List ℕ → Controller W → Controller W
  unfolding insert_all
  allow_protect uids c = record c { protectable_users = insert_all uids c.protectable_users }

  unfoldable pub deny_protect : List ℕ → Controller W → Controller W
  unfolding erase_all
  deny_protect uids c = record c { protectable_users = erase_all uids c.protectable_users }

  unfoldable pub set_network_allowlist : List UidRangeConfig → Step (Controller W)
  unfolding all_exist clear_all allow_all
  set_network_allowlist configs c =
      if all_exist configs c.networks
      then (0, record c { networks = allow_all configs (clear_all c.networks) })
      else (enonet, c)

module _ {W : Type 0} (p : Platform W) where
  unfoldable pub table_type : Controller W → ℕ → Bool → ℕ → TableType
  table_type c net_id legacy uid =
      if net_id == p.local_net_id
      then local_network_table
      else if legacy
      then (if is_system_user p c uid then legacy_system_table else legacy_network_table)
      else interface_table

  -- the switch on the operation
  unfoldable pub route_call : RouteOperation → Name → Name → Option Name → TableType → ℕ → Step W
  route_call route_add interface destination nexthop table mtu =
      p.routes.add_route interface destination nexthop table mtu 0
  route_call route_update interface destination nexthop table mtu =
      p.routes.update_route interface destination nexthop table mtu
  route_call route_remove interface destination nexthop table mtu =
      p.routes.remove_route interface destination nexthop table 0

  unfoldable pub modify_route :
      ℕ → Name → Name → Option Name → RouteOperation → Bool → ℕ → ℕ → Step (Controller W)
  unfolding table_type route_call
  modify_route net_id interface destination nexthop op legacy uid mtu c =
      let existing = get_network_for_interface c interface in
      if not (is_valid_network c net_id)
      then (enonet, c)
      else if existing == netid_unset
      then (enodev, c)
      else if not (existing == net_id)
      then (enoent, c)
      else (let r =
            route_call op interface destination nexthop (table_type c net_id legacy uid) mtu
              c.world in
          (r.0, record c { world = r.1 }))
