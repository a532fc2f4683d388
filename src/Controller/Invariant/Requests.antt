-- ===== src/Controller/Invariant/Requests.antt =====
-- The other operations on networks, and those on users, allowlists, routes and addresses.
use system_netd.Prelude.{
  ℕ, ◌≡◌, refl, inl, inr, Bool, not, Option, none, some, List, ◌==◌, Bool-cases,
}
use system_netd.Prelude.Int.{ℤ}
use system_netd.Prelude.Keys.{Name, nat_key, name_key}
use system_netd.Prelude.Steps.{Step, for_each_keeps}
use system_netd.UidRanges.{UidRanges}
use system_netd.Errno.{einval, enonet}
use system_netd.Platform.{Platform}
use system_netd.Network.{Network, can_add_users}
use system_netd.Network.Physical
use system_netd.Network.Dispatch
use system_netd.Controller.{
  Controller, get_network, run_on, vpns, netid_unset, get_network_for_interface,
}
use system_netd.Controller.Lifecycle.{physical_at}
use system_netd.Controller.Changes.{
  remove_interface_from, remove_interface_from_network, set_permission_for_networks, change_users,
  add_users_to_network, remove_users_from_network,
}
use system_netd.Controller.Lifecycle.Consistent.{IsConsistent}
use system_netd.Controller.Lifecycle.Preserves.{
  KeepsAll, Holds-IsConsistent, run_on-Holds, physical_at-Holds, remove_interface-KeepsAll,
  add_users-KeepsAll, remove_users-KeepsAll, set_permission-KeepsAll,
}
use system_netd.Controller.{is_valid_network}
use system_netd.Controller.Requests.{RouteOperation, modify_route}

module _ {W : Type 0} (p : Platform W) where
  run_on-IsConsistent :
      (id : ℕ) (n : Network) (m : Step (Network × W)) (c : Controller W)
      → get_network c id ≡ some n
      → KeepsAll n ((m (n, c.world)).1).0
      → IsConsistent c
      → IsConsistent (run_on id n m c).1
  run_on-IsConsistent id n m c here keeps k =
      Holds-IsConsistent c.default_net_id (run_on id n m c).1
        (run_on-Holds c.default_net_id c.default_net_id id n m c here keeps (k, refl))

  pub remove_interface-IsConsistent :
      (id : ℕ) (x : Name) (c : Controller W)
      → IsConsistent c
      → IsConsistent (remove_interface_from_network p id x c).1
  unfolding remove_interface_from_network
  remove_interface-IsConsistent id x c k = go (get_network c id) refl
    where
      go :
          (o : Option Network)
          → get_network c id ≡ o
          → IsConsistent (remove_interface_from p id x o c).1
      go none here = k
      go (some n) here =
          run_on-IsConsistent id n (Dispatch.remove_interface p (vpns c) x) c here
            (remove_interface-KeepsAll p (vpns c) n c.world x) k

  change_users-IsConsistent :
      (id : ℕ) (m : Step (Network × W)) (o : Option Network) (c : Controller W)
      → ((n : Network) → KeepsAll n ((m (n, c.world)).1).0)
      → get_network c id ≡ o
      → IsConsistent c
      → IsConsistent (change_users p id m o c).1
  unfolding change_users
  change_users-IsConsistent id m none c keeps here k = k
  change_users-IsConsistent id m (some n) c keeps here k =
      elim (Bool-cases (not (can_add_users n))) [
        | inl e ↦ rw e k
        | inr e ↦ rw e (run_on-IsConsistent id n m c here (keeps n) k)
      ]

  pub add_users-IsConsistent :
      (id : ℕ) (ranges : UidRanges) (q : ℤ) (c : Controller W)
      → IsConsistent c
      → IsConsistent (add_users_to_network p id ranges q c).1
  unfolding add_users_to_network
  add_users-IsConsistent id ranges q c k =
      change_users-IsConsistent id (Dispatch.add_users p (vpns c) ranges q) (get_network c id) c
        (λ n. add_users-KeepsAll p (vpns c) n c.world ranges q) refl k

  pub remove_users-IsConsistent :
      (id : ℕ) (ranges : UidRanges) (q : ℤ) (c : Controller W)
      → IsConsistent c
      → IsConsistent (remove_users_from_network p id ranges q c).1
  unfolding remove_users_from_network
  remove_users-IsConsistent id ranges q c k =
      change_users-IsConsistent id (Dispatch.remove_users p (vpns c) ranges q) (get_network c id) c
        (λ n. remove_users-KeepsAll p (vpns c) n c.world ranges q) refl k

  pub set_permission-IsConsistent :
      (permission : ℕ) (ids : List ℕ) (c : Controller W)
      → IsConsistent c
      → IsConsistent (set_permission_for_networks p permission ids c).1
  unfolding set_permission_for_networks
  set_permission-IsConsistent permission ids c k =
      for_each_keeps IsConsistent ids _
        (λ id s h.
          let r =
            physical_at enonet einval (λ f. Physical.set_permission p (vpns s) f permission) id
              (get_network s id) s in
          Holds-IsConsistent s.default_net_id r.1 (
            physical_at-Holds s.default_net_id s.default_net_id enonet einval
              (λ f. Physical.set_permission p (vpns s) f permission) id (get_network s id) s
              (λ f n w is. set_permission-KeepsAll p (vpns s) n w f is permission) refl (h, refl)))
        c k

  pub modify_route-IsConsistent :
      (id : ℕ) (x dst : Name) (hop : Option Name) (op : RouteOperation) (legacy : Bool)
      (uid mtu : ℕ) (c : Controller W)
      → IsConsistent c
      → IsConsistent (modify_route p id x dst hop op legacy uid mtu c).1
  unfolding modify_route
  modify_route-IsConsistent id x dst hop op legacy uid mtu c k =
      elim (Bool-cases (not (is_valid_network c id))) [
        | inl e ↦ rw e k
        | inr e ↦ elim (Bool-cases (get_network_for_interface c x == netid_unset)) [
          | inl e' ↦ rw (e, e') k
          | inr e' ↦ elim (Bool-cases (not (get_network_for_interface c x == id))) [
            | inl e'' ↦ rw (e, e', e'') k
            | inr e'' ↦ rw (e, e', e'') k
          ]
        ]
      ]
