-- ===== src/Controller/Invariant/Destruction.antt =====
-- The destruction of networks.
use system_netd.Prelude.{
  ℕ, ◌≤◌, ◌≡◌, ◌≢◌, refl, inl, inr, false, ◌||◌, Option, none, some, ◌==◌, arith, Bool-cases,
}
use system_netd.Prelude.Keys.{nat_key, name_key}
use system_netd.Containers.Map.{All-find}
use system_netd.Platform.{Platform}
use system_netd.Network.{Network, is_virtual}
use system_netd.Network.Physical
use system_netd.Network.Dispatch
use system_netd.Controller.{Controller, get_network, run_on, vpns}
use system_netd.Controller.Changes.{
  detach, drop_network, leave_default, leave_vpn, destroy_found, destroy_network,
}
use system_netd.Controller.Lifecycle.Consistent.{
  Filed, IsConsistent, Consistent-erase, Consistent-default,
}
use system_netd.Controller.Lifecycle.Preserves.{
  Holds-IsConsistent, run_on-Holds, physical_at-Holds, remove_as_default-KeepsAll,
  clear_interfaces-KeepsAll,
}
use system_netd.Controller.Invariant.Creation.{modify_fallthrough_networks}

module _ {W : Type 0} (p : Platform W) where
  -- Consistent, with another default network than `id`.
  abbrev Detached : ℕ → Controller W → Type 0
  Detached id c = IsConsistent c × (c.default_net_id ≢ id)

  leave_default-Detached :
      (id ret : ℕ) (c : Controller W)
      → 1 ≤ id
      → IsConsistent c
      → Detached id (leave_default p id ret c).1
  unfolding leave_default
  leave_default-Detached id ret c pos k = (
    Consistent-default c.default_net_id _ 0
        (physical_at-Holds c.default_net_id c.default_net_id 0 0
          (Physical.remove_as_default p (vpns c)) id (get_network c id) c
          (λ f n w is. remove_as_default-KeepsAll p (vpns c) n w f is) refl (k, refl)).0
        (inl refl),
    ground arith,
  )

  leave_vpn-Detached :
      (id ret : ℕ) (c : Controller W) → Detached id c → Detached id (leave_vpn p id ret c).1
  unfolding leave_vpn
  leave_vpn-Detached id ret c (k, other) =
      let (same, same') = modify_fallthrough_networks p id false c in
      (rw (same, same') k, rw same' other)

  detach-Detached :
      (id : ℕ) (n : Network) (r : ℕ × Controller W)
      → 1 ≤ id
      → IsConsistent r.1
      → Detached id (detach p id n r).1
  unfolding detach
  detach-Detached id n (ret, c) pos k = elim (Bool-cases (c.default_net_id == id)) [
    | inl e ↦ rw e (leave_default-Detached id ret c pos k)
    | inr e ↦ elim (Bool-cases (is_virtual n)) [
      | inl e' ↦ rw (e, e') (leave_vpn-Detached id ret c (k, ground arith))
      | inr e' ↦ rw (e, e') (k, ground arith)
    ]
  ]

  drop_network-IsConsistent :
      (id : ℕ) (r : ℕ × Controller W) → Detached id r.1 → IsConsistent (drop_network p id r).1
  unfolding drop_network
  drop_network-IsConsistent id (ret, c) (k, other) =
      Consistent-erase c.default_net_id c.networks id k other

  destroy_found-IsConsistent :
      (id : ℕ) (o : Option Network) (c : Controller W)
      → get_network c id ≡ o
      → IsConsistent c
      → IsConsistent (destroy_found p id o c).1
  unfolding destroy_found
  destroy_found-IsConsistent id none c here k = k
  destroy_found-IsConsistent id (some n) c here k =
      let d = c.default_net_id in
      let clear = Dispatch.clear_interfaces p (vpns c) in
      let r = run_on id n clear c in
      let cleared =
        run_on-Holds d d id n clear c here (clear_interfaces-KeepsAll p (vpns c) n c.world)
          (k, refl) in
      drop_network-IsConsistent id (detach p id n r) (
        detach-Detached id n r (All-find Filed id n c.networks k.filed here).1
          (Holds-IsConsistent d r.1 cleared))

  pub destroy_network-IsConsistent :
      (id : ℕ) (c : Controller W) → IsConsistent c → IsConsistent (destroy_network p id c).1
  unfolding destroy_network
  destroy_network-IsConsistent id c k =
      elim (Bool-cases (id == p.local_net_id || id == p.unreachable_net_id)) [
        | inl e ↦ rw e k
        | inr e ↦ rw e (destroy_found-IsConsistent id (get_network c id) c refl k)
      ]
