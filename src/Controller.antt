-- ===== src/Controller.antt =====
-- server/NetworkController.h and server/NetworkController.cpp: the state, and the queries that the
-- operations in the child modules share. The lock is not modelled: each method is one step.
pub mod Access
pub mod Selection
pub mod Lifecycle
pub mod Changes
pub mod Requests
pub mod Addresses
pub mod Invariant
use system_netd.Prelude.{
  ℕ, ◌≡◌, Bool, true, false, not, ◌&&◌, ◌||◌, Option, none, some, List, [], ◌∷◌, ltb, ◌==◌,
  if◌then◌else◌,
}
use system_netd.Prelude.Int.{ℤ, ltb_ℤ, eqb_ℤ}
use system_netd.Prelude.Keys.{Name, nat_key, name_key}
use system_netd.Prelude.Steps.{Step}
use system_netd.Containers.Map
use system_netd.Containers.Map.{Map}
use system_netd.Containers.OrderedSet
use system_netd.Fwmark.{permission_none, permission_system, has_permission}
use system_netd.Platform.{Platform}
use system_netd.Network.{
  Network, is_physical, is_virtual, is_unreachable, has_interface, applies_to_user,
  sub_priority_no_default, new_local_network, new_dummy_network, new_unreachable_network,
}

abbrev pub netid_unset : ℕ
netid_unset = 0

abbrev pub min_net_id : ℕ
min_net_id = 100

abbrev pub max_net_id : ℕ
max_net_id = 65535

abbrev pub min_oem_id : ℕ
min_oem_id = 1

abbrev pub max_oem_id : ℕ
max_oem_id = 50

-- `INVALID_UID`, the cast of -1
abbrev pub invalid_uid : ℕ
invalid_uid = 4294967295

-- The unordered maps are kept in the order of their keys. `world` is the state of the rest of the
-- system, among it RouteController's and the kernel's.
pub record Controller (W : Type 0) : Type 0 where
  pub default_net_id : ℕ
  pub networks : Map ℕ Network
  pub users : Map ℕ ℕ
  pub protectable_users : List ℕ
  pub ifindex_to_last_net_id : Map ℕ ℕ
  pub address_to_ifindices : Map Name (List ℕ)
  pub world : W

module _ {W : Type 0} (p : Platform W) where
  -- the constructor, behind its clean-up of the interfaces' queueing disciplines
  unfoldable pub init : W → Controller W
  init w = record {
    default_net_id = netid_unset;
    networks = Map.insert p.unreachable_net_id (new_unreachable_network p.unreachable_net_id) (
        Map.insert p.dummy_net_id (new_dummy_network p.dummy_net_id)
          (Map.insert p.local_net_id (new_local_network p.local_net_id) []));
    users = [];
    protectable_users = p.aid_vpn ∷ [];
    ifindex_to_last_net_id = [];
    address_to_ifindices = [];
    world = w;
  }

  permission_or : Option ℕ → ℕ → ℕ
  permission_or (some permission) uid = permission
  permission_or none uid =
      if ltb uid p.first_application_uid then permission_system else permission_none

  unfoldable pub get_permission_for_user : Controller W → ℕ → ℕ
  unfolding permission_or
  get_permission_for_user c uid = permission_or (Map.find uid c.users) uid

  unfoldable pub is_system_user : Controller W → ℕ → Bool
  is_system_user c uid = has_permission (get_permission_for_user c uid) permission_system

  abbrev pub is_protectable : Controller W → ℕ → Bool
  is_protectable c uid = OrderedSet.contains uid c.protectable_users

  unfoldable pub can_protect : Controller W → ℕ → Bool
  unfolding is_system_user
  can_protect c uid = is_system_user c uid || is_protectable c uid

abbrev pub get_network : {W : Type 0} → Controller W → ℕ → Option Network
get_network c net_id = Map.find net_id c.networks

is_some_network : Option Network → Bool
is_some_network none = false
is_some_network (some n) = true

unfoldable pub is_valid_network : {W : Type 0} → Controller W → ℕ → Bool
unfolding is_some_network
is_valid_network c net_id = is_some_network (get_network c net_id)

is_some_virtual : Option Network → Bool
is_some_virtual none = false
is_some_virtual (some n) = is_virtual n

unfoldable pub is_virtual_network : {W : Type 0} → Controller W → ℕ → Bool
unfolding is_some_virtual
is_virtual_network c net_id = is_some_virtual (get_network c net_id)

applies : Option ℤ → Bool
applies none = false
applies (some q) = true

unfoldable pub applies_to : Network → ℕ → Bool
unfolding applies
applies_to n uid = applies (applies_to_user n uid)

unfoldable pub find_virtual : Map ℕ Network → ℕ → Option Network
unfolding applies_to
find_virtual [] uid = none
find_virtual ((id, n) ∷ ns) uid =
    let rest = find_virtual ns uid in if is_virtual n && applies_to n uid then some n else rest

unfoldable pub get_virtual_network_for_user : {W : Type 0} → Controller W → ℕ → Option Network
unfolding find_virtual
get_virtual_network_for_user c uid = find_virtual c.networks uid

-- The body of the loop of `getPhysicalOrUnreachableNetworkForUserLocked`: the best network and its
-- sub-priority, after a network that applies at a sub-priority, or that does not.
better : Network → Option ℤ → Option Network × ℤ → Option Network × ℤ
better n none best = best
better n (some q) best =
    if eqb_ℤ q sub_priority_no_default then best else if ltb_ℤ q best.1 then (some n, q) else best

unfoldable pub find_best : Map ℕ Network → ℕ → Option Network × ℤ → Option Network × ℤ
unfolding better
find_best [] uid best = best
find_best ((id, n) ∷ ns) uid best = find_best ns uid (
    if not (is_physical n) && not (is_unreachable n)
    then best
    else better n (applies_to_user n uid) best)

unfoldable pub get_physical_or_unreachable_network_for_user :
    {W : Type 0} → Controller W → ℕ → Option Network
unfolding find_best
get_physical_or_unreachable_network_for_user c uid =
    (find_best c.networks uid (none, sub_priority_no_default)).0

unfoldable pub find_interface : Map ℕ Network → Name → ℕ
find_interface [] interface = netid_unset
find_interface ((id, n) ∷ ns) interface =
    let rest = find_interface ns interface in if has_interface n interface then id else rest

unfoldable pub get_network_for_interface : {W : Type 0} → Controller W → Name → ℕ
unfolding find_interface
get_network_for_interface c interface = find_interface c.networks interface

-- the netIds that the delegate's `modifyFallthrough` visits
unfoldable pub virtual_net_ids : Map ℕ Network → List ℕ
virtual_net_ids [] = []
virtual_net_ids ((id, n) ∷ ns) =
    let rest = virtual_net_ids ns in if is_virtual n then id ∷ rest else rest

abbrev pub vpns : {W : Type 0} → Controller W → List ℕ
vpns c = virtual_net_ids c.networks

-- A method of the network object at a netId, which changes the object and the world.
unfoldable pub run_on : {W : Type 0} → ℕ → Network → Step (Network × W) → Step (Controller W)
run_on net_id n m c =
    let r = m (n, c.world) in
    (r.0, record c { networks = Map.insert net_id (r.1).0 c.networks; world = (r.1).1 })
