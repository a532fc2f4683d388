-- ===== src/Controller/Invariant/Ownership.antt =====
-- An interface belongs to the network that it was added to, and to none when it was removed.
use system_netd.Prelude.{
  ℕ, zero, suc, ◌≡◌, refl, sym, ap, ◌∙◌, subst, inl, inr, true, false, not, ◌&&◌, some, ◌==◌, arith,
  Bool-cases,
}
use system_netd.Prelude.Keys.{Name, nat_key, name_key}
use system_netd.Prelude.Steps.{Step, and_then, update}
use system_netd.Containers.Map
use system_netd.Containers.Map.{equal_refl, find-insert_cases}
use system_netd.Containers.OrderedSet
use system_netd.Platform.{Platform}
use system_netd.Network.{Network, has_interface}
use system_netd.Network.Dispatch
use system_netd.Network.Interfaces.{
  Commits, with_interface, without_interface, add_interface-Commits, remove_interface-Commits,
}
use system_netd.Controller.{
  Controller, get_network, run_on, vpns, netid_unset, get_network_for_interface,
}
use system_netd.Controller.Lifecycle.Consistent.{IsConsistent}
use system_netd.Controller.Changes.{
  record_ifindex, add_interface_to, add_interface_to_network, remove_interface_from,
  remove_interface_from_network,
}
use system_netd.Controller.Changes.Owner.{interface-Owner, owner_cases, with-Has}
use system_netd.Controller.Invariant.Interfaces.{add_interface-IsConsistent}
use system_netd.Controller.Invariant.Requests.{remove_interface-IsConsistent}

module _ {W : Type 0} (p : Platform W) (id : ℕ) (x : Name) (c : Controller W) where
  -- On success, the network at the netId has the interface.
  abbrev Has : ℕ × Controller W → Type 0
  Has r = (m : Network) × (get_network r.1 id ≡ some m) × (has_interface m x ≡ true)

  recorded-Has : (r : ℕ × Controller W) → Has r → Has (and_then (update (record_ifindex p id x)) r)
  unfolding record_ifindex
  recorded-Has (zero, s) has = ground (arith, has)
  recorded-Has (suc e, s) has = has

  recorded_errno :
      (r : ℕ × Controller W) → (and_then (update (record_ifindex p id x)) r).0 ≡ 0 → r.0 ≡ 0
  recorded_errno (zero, s) e = refl
  recorded_errno (suc n, s) e = e

  run_on-Has :
      (n : Network) (m : Step (Network × W))
      → Commits (with_interface x) n (m (n, c.world))
      → (m (n, c.world)).0 ≡ 0
      → Has (run_on id n m c)
  unfolding run_on
  run_on-Has n m done ok = elim done [
    | inl (_, e) ↦ (
      ((m (n, c.world)).1).0,
      rw (Map.find-insert id id ((m (n, c.world)).1).0 c.networks, equal_refl id) refl,
      rw e (with-Has x n),
    )
    | inr (bad, _) ↦ absurd (bad ok)
  ]

  added-Has :
      (n : Network)
      → get_network c id ≡ some n
      → (add_interface_to_network p id x c).0 ≡ 0
      → Has (add_interface_to_network p id x c)
  unfolding add_interface_to_network add_interface_to
  added-Has n here =
      rw here
        (elim (Bool-cases (
          not (get_network_for_interface c x == netid_unset)
          && not (get_network_for_interface c x == id))) [
            | inl taken ↦ rw taken (λ e. absurd (omega (arith, e)))
            | inr free ↦
                let add = Dispatch.add_interface p (vpns c) x in
                let s = run_on id n add c in
                rw free (λ ok. recorded-Has s (
                  run_on-Has n add (add_interface-Commits p (vpns c) x n c.world)
                    (run_on_errno n add (recorded_errno s ok))))
          ])
    where
      run_on_errno :
          (n : Network) (m : Step (Network × W)) → (run_on id n m c).0 ≡ 0 → (m (n, c.world)).0 ≡ 0
      run_on_errno n m = unfold run_on in λ e. e

  module _ (k : IsConsistent c) where
    -- In a consistent state, after an interface was added to a network that exists, with success,
    -- the network is the one that the interface belongs to.
    pub add_interface-Owned :
        (n : Network)
        → get_network c id ≡ some n
        → (add_interface_to_network p id x c).0 ≡ 0
        → get_network_for_interface (add_interface_to_network p id x c).1 x ≡ id
    add_interface-Owned n here ok =
        let r = add_interface_to_network p id x c in
        let (m, there, has) = added-Has n here ok in
        (interface-Owner x r.1 id m (add_interface-IsConsistent p id x c k) there).1 has

    without-Lacks : (n : Network) → has_interface (without_interface x n) x ≡ false
    without-Lacks n = elim (Bool-cases (has_interface n x)) [
      | inl has ↦ rw has (rw (OrderedSet.contains-erase x x n.interfaces, equal_refl x) refl)
      | inr lacks ↦ rw lacks lacks
    ]

    -- After the removal no network has the interface.
    removed-Lacks :
        (n m : Network) (j : ℕ) (remove : Step (Network × W))
        → get_network c id ≡ some n
        → has_interface n x ≡ true
        → Commits (without_interface x) n (remove (n, c.world))
        → (run_on id n remove c).0 ≡ 0
        → get_network (run_on id n remove c).1 j ≡ some m
        → has_interface m x ≡ false
    unfolding run_on
    removed-Lacks n m j remove here had (inr (bad, _)) ok there = absurd (bad ok)
    removed-Lacks n m j remove here had (inl (_, e)) ok there =
        elim (find-insert_cases id j ((remove (n, c.world)).1).0 m c.networks there) [
          | inl (_, same) ↦ subst (λ o. has_interface o x ≡ false) (sym e ∙ same) (without-Lacks n)
          | inr (other, old) ↦ elim (Bool-cases (has_interface m x)) [
            | inl has ↦
                let same : j ≡ id = k.exclusive id n x here had j m old has in
                absurd (ground (arith, other, same))
            | inr lacks ↦ lacks
          ]
        ]

    removal_run :
        (n : Network)
        → get_network c id ≡ some n
        → remove_interface_from_network p id x c
          ≡ run_on id n (Dispatch.remove_interface p (vpns c) x) c
    unfolding remove_interface_from_network remove_interface_from
    removal_run n here = rw here refl

    -- In a consistent state, after an interface was removed with success from the network that it
    -- belongs to, it belongs to none.
    remove_interface-Disowned :
        (n : Network)
        → get_network c id ≡ some n
        → has_interface n x ≡ true
        → (remove_interface_from_network p id x c).0 ≡ 0
        → get_network_for_interface (remove_interface_from_network p id x c).1 x ≡ netid_unset
    remove_interface-Disowned n here had ok =
        let remove = Dispatch.remove_interface p (vpns c) x in
        let e = removal_run n here in
        let r = remove_interface_from_network p id x c in
        elim (owner_cases x r.1 (remove_interface-IsConsistent p id x c k)) [
          | inl (none_left, _) ↦ none_left
          | inr (m, there, has) ↦
              let lacks =
                removed-Lacks n m (get_network_for_interface r.1 x) remove here had
                  (remove_interface-Commits p (vpns c) x n c.world) (sym (ap (λ s. s.0) e) ∙ ok)
                  (subst (λ s. get_network s.1 (get_network_for_interface r.1 x) ≡ some m) e
                    there) in
              absurd (cc (has, lacks))
        ]
