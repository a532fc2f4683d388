-- ===== src/Controller/Changes/Owner.antt =====
-- Which network an interface belongs to, before and after `addInterfaceToNetwork` and
-- `removeInterfaceFromNetwork` of server/NetworkController.cpp.
use system_netd.Prelude.{
  ℕ, ◌≡◌, ◌≢◌, ◌↔◌, refl, sym, ap, ◌∙◌, subst, ◌⊎◌, inl, inr, true, false, some, [], ◌∷◌, arith,
  Bool-cases, All,
}
use system_netd.Prelude.Keys.{Name, nat_key, name_key}
use system_netd.Containers.Map
use system_netd.Containers.Map.{
  Map, Sorted, All-find, find_head, find-cons_cases, find_further, equal_refl,
}
use system_netd.Containers.OrderedSet
use system_netd.Errno.{ebusy}
use system_netd.Platform.{Platform}
use system_netd.Network.{Network, has_interface}
use system_netd.Network.Interfaces.{with_interface}
use system_netd.Controller.{Controller, get_network, find_interface, get_network_for_interface}
use system_netd.Controller.Lifecycle.Consistent.{IsConsistent, Filed}
use system_netd.Controller.Changes.{add_interface_to, add_interface_to_network}

-- The search for the network of an interface finds one that has it, or no network has it.
pub find_interface_cases :
    (ns : Map ℕ Network) (x : Name)
    → Sorted ns
    → All Filed ns
    → ((find_interface ns x ≡ 0)
        × ((j : ℕ) (m : Network) → Map.find j ns ≡ some m → has_interface m x ≡ false))
      ⊎ ((n : Network) × (Map.find (find_interface ns x) ns ≡ some n) × (has_interface n x ≡ true))
unfolding find_interface
find_interface_cases [] x h f = inl (refl, unfold Map.find in λ j m e. cc)
find_interface_cases ((id, n) ∷ ns) x h f = elim (Bool-cases (has_interface n x)) [
  | inl has ↦ rw has (inr (n, find_head id n ns, has))
  | inr lacks ↦ rw lacks (elim (find_interface_cases ns x h.1 f.1) [
    | inl (z, absent) ↦ inl (
      z,
      λ j m e. elim (find-cons_cases id j n m ns e) [
        | inl (_, same) ↦ rw (← same) lacks
        | inr behind ↦ absent j m behind
      ],
    )
    | inr (m, e, has) ↦ inr (m, further m e, has)
  ])
]
  where
    further :
        (m : Network)
        → Map.find (find_interface ns x) ns ≡ some m
        → Map.find (find_interface ns x) ((id, n) ∷ ns) ≡ some m
    further m e = find_further id (find_interface ns x) n m ns h.0 e

some_injective : {n m : Network} → some n ≡ some m → n ≡ m
some_injective e = cc e

module _ {W : Type 0} (x : Name) where
  pub owner_cases :
      (c : Controller W)
      → IsConsistent c
      → ((get_network_for_interface c x ≡ 0)
          × ((j : ℕ) (m : Network) → get_network c j ≡ some m → has_interface m x ≡ false))
        ⊎ ((n : Network) × (get_network c (get_network_for_interface c x) ≡ some n)
            × (has_interface n x ≡ true))
  unfolding get_network_for_interface
  owner_cases c k = find_interface_cases c.networks x k.sorted k.filed

  -- In a consistent state, `getNetworkForInterface` returns the netId of a network exactly if that
  -- network has the interface.
  pub interface-Owner :
      (c : Controller W) (i : ℕ) (n : Network)
      → IsConsistent c
      → get_network c i ≡ some n
      → (get_network_for_interface c x ≡ i) ↔ (has_interface n x ≡ true)
  interface-Owner c i n k here = elim (owner_cases c k) [
    | inl (z, absent) ↦ (
      λ e. absurd (omega (arith, z, e, (All-find Filed i n c.networks k.filed here).1)),
      λ has. absurd (cc (absent i n here, has)),
    )
    | inr (m, found, has) ↦ (
      λ e.
          subst (λ o. has_interface o x ≡ true)
            (some_injective (sym found ∙ ap (get_network c) e ∙ here)) has,
      λ has'. k.exclusive i n x here has' (get_network_for_interface c x) m found has,
    )
  ]

pub with-Has : (x : Name) (n : Network) → has_interface (with_interface x n) x ≡ true
with-Has x n = elim (Bool-cases (has_interface n x)) [
  | inl has ↦ rw has has
  | inr lacks ↦ rw lacks (rw (OrderedSet.contains-insert x x n.interfaces, equal_refl x) refl)
]

module _ {W : Type 0} (p : Platform W) (id : ℕ) (x : Name) (c : Controller W)
    (k : IsConsistent c) where
  -- In a consistent state, adding an interface that some other network has to a network that exists
  -- fails with -EBUSY and changes nothing.
  add_interface-Busy :
      (n m : Network) (j : ℕ)
      → get_network c id ≡ some n
      → get_network c j ≡ some m
      → has_interface m x ≡ true
      → j ≢ id
      → add_interface_to_network p id x c ≡ (ebusy, c)
  unfolding add_interface_to_network add_interface_to
  add_interface-Busy n m j here there has other =
      let owner : get_network_for_interface c x ≡ j = (interface-Owner x c j m k there).1 has in
      let pos = (All-find Filed j m c.networks k.filed there).1 in
      rw here (rw owner (ground (arith, pos, other)))
