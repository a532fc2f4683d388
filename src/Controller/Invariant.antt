-- ===== src/Controller/Invariant.antt =====
-- The operations of server/NetworkController.cpp as steps of a history, and the invariant of every
-- history.
mod Default
mod Creation
mod Destruction
mod Interfaces
mod Requests
mod Allowlist
mod Addresses
pub mod Ownership
use system_netd.Prelude.{
  ℕ, zero, suc, ◌≤◌, ◌≡◌, ◌≢◌, refl, sym, subst, inl, inr, Bool, true, false, Option, none, some,
  List, [], ◌∷◌, arith, Bool-cases,
}
use system_netd.Prelude.Int.{ℤ}
use system_netd.Prelude.Keys.{Name, nat_key, name_key}
use system_netd.Containers.Map
use system_netd.Containers.Map.{find-insert_cases}
use system_netd.Containers.OrderedSet
use system_netd.UidRanges.{UidRanges}
use system_netd.Platform.{Platform}
use system_netd.Network.{
  Network, has_interface, new_local_network, new_dummy_network, new_unreachable_network,
}
use system_netd.Controller.{Controller, init}
use system_netd.Controller.Lifecycle.{
  set_default_network, create_physical_network, create_physical_oem_network, create_virtual_network,
}
use system_netd.Controller.Changes.{
  destroy_network, add_interface_to_network, remove_interface_from_network,
  set_permission_for_networks, add_users_to_network, remove_users_from_network,
}
use system_netd.Controller.Requests.{
  RouteOperation, UidRangeConfig, set_permission_for_users, allow_protect, deny_protect,
  set_network_allowlist, modify_route,
}
use system_netd.Controller.Addresses.{add_interface_address, remove_interface_address}
use system_netd.Controller.Lifecycle.Consistent.{
  Consistent, IsConsistent, Consistent-new, Consistent-add, OnlyAt,
}
use Default.{set_default_network-IsConsistent}
use Creation.{
  create_physical_network-IsConsistent, create_oem-IsConsistent,
  create_virtual_network-IsConsistent,
}
use Destruction.{destroy_network-IsConsistent}
use Interfaces.{add_interface-IsConsistent}
use Requests.{
  remove_interface-IsConsistent, add_users-IsConsistent, remove_users-IsConsistent,
  set_permission-IsConsistent, modify_route-IsConsistent,
}
use Allowlist.{set_allowlist-IsConsistent}
use Addresses.{add_address-IsConsistent, remove_address-IsConsistent}

-- A call of a method that may change the controller.
pub data Call : Type 0 where
  sets_default destroys : ℕ → Call
  creates_physical : ℕ → ℕ → Bool → Call
  creates_oem : ℕ → Call
  creates_virtual : ℕ → Bool → ℤ → Bool → Call
  adds_interface removes_interface : ℕ → Name → Call
  sets_user_permission sets_network_permission : ℕ → List ℕ → Call
  adds_users removes_users : ℕ → UidRanges → ℤ → Call
  changes_route : ℕ → Name → Name → Option Name → RouteOperation → Bool → ℕ → ℕ → Call
  adds_address removes_address : ℕ → Name → Call
  allows_protect denies_protect : List ℕ → Call
  sets_allowlist : List UidRangeConfig → Call

module _ {W : Type 0} (p : Platform W) where
  unfoldable pub step : Controller W → Call → Controller W
  step c (sets_default id) = (set_default_network p id c).1
  step c (destroys id) = (destroy_network p id c).1
  step c (creates_physical id permission is_local) =
      (create_physical_network p id permission is_local c).1
  step c (creates_oem permission) = ((create_physical_oem_network p permission c).1).1
  step c (creates_virtual id secure vpn_type exclude) =
      (create_virtual_network p id secure vpn_type exclude c).1
  step c (adds_interface id x) = (add_interface_to_network p id x c).1
  step c (removes_interface id x) = (remove_interface_from_network p id x c).1
  step c (sets_user_permission permission uids) = set_permission_for_users permission uids c
  step c (sets_network_permission permission ids) =
      (set_permission_for_networks p permission ids c).1
  step c (adds_users id ranges q) = (add_users_to_network p id ranges q c).1
  step c (removes_users id ranges q) = (remove_users_from_network p id ranges q c).1
  step c (changes_route id x dst hop op legacy uid mtu) =
      (modify_route p id x dst hop op legacy uid mtu c).1
  step c (adds_address ifindex a) = add_interface_address ifindex a c
  step c (removes_address ifindex a) = (remove_interface_address ifindex a c).1
  step c (allows_protect uids) = allow_protect uids c
  step c (denies_protect uids) = deny_protect uids c
  step c (sets_allowlist configs) = (set_network_allowlist configs c).1

  unfoldable pub run : Controller W → List Call → Controller W
  unfolding step
  run c [] = c
  run c (call ∷ calls) = run (step c call) calls

  step-IsConsistent : (c : Controller W) (call : Call) → IsConsistent c → IsConsistent (step c call)
  unfolding step set_permission_for_users allow_protect deny_protect
  step-IsConsistent c (sets_default id) k = set_default_network-IsConsistent p id c k
  step-IsConsistent c (destroys id) k = destroy_network-IsConsistent p id c k
  step-IsConsistent c (creates_physical id permission is_local) k =
      create_physical_network-IsConsistent p id permission is_local c k
  step-IsConsistent c (creates_oem permission) k = create_oem-IsConsistent p permission c k
  step-IsConsistent c (creates_virtual id secure vpn_type exclude) k =
      create_virtual_network-IsConsistent p id secure vpn_type exclude c k
  step-IsConsistent c (adds_interface id x) k = add_interface-IsConsistent p id x c k
  step-IsConsistent c (removes_interface id x) k = remove_interface-IsConsistent p id x c k
  step-IsConsistent c (sets_user_permission permission uids) k = k
  step-IsConsistent c (sets_network_permission permission ids) k =
      set_permission-IsConsistent p permission ids c k
  step-IsConsistent c (adds_users id ranges q) k = add_users-IsConsistent p id ranges q c k
  step-IsConsistent c (removes_users id ranges q) k = remove_users-IsConsistent p id ranges q c k
  step-IsConsistent c (changes_route id x dst hop op legacy uid mtu) k =
      modify_route-IsConsistent p id x dst hop op legacy uid mtu c k
  step-IsConsistent c (adds_address ifindex a) k = add_address-IsConsistent ifindex a c k
  step-IsConsistent c (removes_address ifindex a) k = remove_address-IsConsistent ifindex a c k
  step-IsConsistent c (allows_protect uids) k = k
  step-IsConsistent c (denies_protect uids) k = k
  step-IsConsistent c (sets_allowlist configs) k = set_allowlist-IsConsistent configs c k

  run-IsConsistent :
      (c : Controller W) (calls : List Call) → IsConsistent c → IsConsistent (run c calls)
  unfolding run
  run-IsConsistent c [] k = k
  run-IsConsistent c (call ∷ calls) k =
      run-IsConsistent (step c call) calls (step-IsConsistent c call k)

  -- The netIds of the three system networks, which INetd.aidl defines, are distinct and not 0.
  pub record HasSystemIds : Type 0 where
    pub local_set : 1 ≤ p.local_net_id
    pub dummy_set : 1 ≤ p.dummy_net_id
    pub unreachable_set : 1 ≤ p.unreachable_net_id
    pub local_dummy : p.local_net_id ≢ p.dummy_net_id
    pub local_unreachable : p.local_net_id ≢ p.unreachable_net_id
    pub dummy_unreachable : p.dummy_net_id ≢ p.unreachable_net_id

  empty-Consistent : Consistent 0 []
  unfolding Map.find
  empty-Consistent = record {
    sorted = tt;
    filed = tt;
    default_network = inl refl;
    exclusive = λ i n x e h. absurd (cc e);
  }

  -- The local network starts without interfaces, so it shares none.
  only_local :
      (local_id id : ℕ) (x : Name)
      → has_interface (new_dummy_network id) x ≡ true
      → OnlyAt id x (Map.insert local_id (new_local_network local_id) [])
  unfolding new_local_network Map.find OrderedSet.contains
  only_local local_id id x has j m found has' =
      elim (find-insert_cases local_id j (new_local_network local_id) m [] found) [
        | inl (_, same) ↦
            let h = subst (λ n. has_interface n x ≡ true) (sym same) has' in absurd (cc h)
        | inr (_, e) ↦ absurd (cc e)
      ]

  init-IsConsistent : (w : W) → HasSystemIds → IsConsistent (init p w)
  unfolding init new_local_network new_dummy_network new_unreachable_network Map.find
      OrderedSet.contains
  init-IsConsistent w ids =
      let l = new_local_network p.local_net_id in
      let d = new_dummy_network p.dummy_net_id in
      let u = new_unreachable_network p.unreachable_net_id in
      let ns = Map.insert p.local_net_id l [] in
      let ns' = Map.insert p.dummy_net_id d ns in
      let one =
        Consistent-new 0 [] p.local_net_id empty-Consistent l refl ids.local_set refl (λ x. refl) in
      let two =
        Consistent-add 0 ns p.dummy_net_id one d
          (rw (Map.find-insert p.local_net_id p.dummy_net_id l [])
            (ground (arith, ids.local_dummy)))
          ids.dummy_set refl (only_local p.local_net_id p.dummy_net_id) in
      Consistent-new 0 ns' p.unreachable_net_id two u
        (rw
          (
            Map.find-insert p.dummy_net_id p.unreachable_net_id d ns,
            Map.find-insert p.local_net_id p.unreachable_net_id l [],
          )
          (ground (arith, ids.local_unreachable, ids.dummy_unreachable)))
        ids.unreachable_set refl (λ x. refl)

  -- Whatever calls are made after the constructor: the map of networks stays sorted, each network
  -- is filed under its own netId, which is not NETID_UNSET, the default network is unset or a
  -- physical network of the map, and no interface is in two networks. The condition is that the
  -- three system netIds are distinct and set.
  pub run-init-IsConsistent :
      HasSystemIds → (w : W) (calls : List Call) → IsConsistent (run (init p w) calls)
  run-init-IsConsistent ids w calls = run-IsConsistent (init p w) calls (init-IsConsistent w ids)
