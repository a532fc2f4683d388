-- ===== src/Controller/Addresses/Handover.antt =====
-- When `removeInterfaceAddress` of server/NetworkController.cpp keeps the sockets on an address.
use system_netd.Prelude.{
  ℕ, ◌≡◌, ◌↔◌, refl, sym, ap, subst, ◌∙◌, ◌⊎◌, inl, inr, Bool, true, false, not, ◌&&◌, Option, none,
  some, List, [], ◌∷◌, ◌==◌, arith, if◌then◌else◌, Bool-cases, Option-cases, Any, ==_iff,
}
use system_netd.Prelude.Keys.{Name, nat_key, name_key}
use system_netd.Containers.Map
use system_netd.Containers.Map.{Map}
use system_netd.Containers.OrderedSet
use system_netd.Controller.{Controller, is_virtual_network}
use system_netd.Controller.Addresses.{
  number_at, is_empty, check_handover, after_erase, remove_from, remove_interface_address,
}

-- What a map to numbers is read as, 0 where there is no entry.
abbrev or_zero : Option ℕ → ℕ
or_zero none = 0
or_zero (some v) = v

abbrev pub last_net_id : {W : Type 0} → Controller W → ℕ → ℕ
last_net_id c ifindex = or_zero (Map.find ifindex c.ifindex_to_last_net_id)

module _ {W : Type 0} (last : ℕ) (c : Controller W) where
  -- The interface was last on the same network, which is a VPN.
  abbrev pub TakesOver : ℕ → Type 0
  TakesOver idx = (last == last_net_id c idx && is_virtual_network c last) ≡ true

  -- A state of the loop, which may have more entries, all of them 0.
  abbrev Agrees : Controller W → Type 0
  Agrees s = (s.networks ≡ c.networks) × ((i : ℕ) → last_net_id s i ≡ last_net_id c i)

  read_number :
      (idx : ℕ) (m : Map ℕ ℕ) → (number_at (Map.find idx m) idx m).0 ≡ or_zero (Map.find idx m)
  unfolding number_at
  read_number idx m = elim (Option-cases (Map.find idx m)) [
    | inl e ↦ rw e refl
    | inr (v, e) ↦ rw e refl
  ]

  kept_numbers :
      (idx i : ℕ) (m : Map ℕ ℕ)
      → or_zero (Map.find i (number_at (Map.find idx m) idx m).1) ≡ or_zero (Map.find i m)
  unfolding number_at
  kept_numbers idx i m = elim (Option-cases (Map.find idx m)) [
    | inl e ↦ rw e (
        rw (Map.find-insert idx i 0 m) (elim (Bool-cases (idx == i)) [
          | inl same ↦
              let none_here : Map.find i m ≡ none =
                ap (λ j. Map.find j m) (sym ((==_iff idx i).0 same)) ∙ e in
              rw same (rw none_here refl)
          | inr other ↦ rw other refl
        ]))
    | inr (v, e) ↦ rw e refl
  ]

  test_same :
      (s : Controller W) (v u : ℕ)
      → v ≡ u
      → s.networks ≡ c.networks
      → ((last == v) && is_virtual_network s v) ≡ (last == u && is_virtual_network c last)
  unfolding is_virtual_network
  test_same s v u e same = elim (Bool-cases (last == u)) [
    | inl here ↦
        let at_last : v ≡ last = e ∙ sym ((==_iff last u).0 here) in
        rw (at_last, same) (ground (arith, here))
    | inr other ↦ rw (e, other) refl
  ]

  round_iff :
      (t : Bool) (s : Controller W) (rest : Bool × Controller W) (Q : Type 0)
      → ((rest.0 ≡ false) ↔ Q)
      → ((if t then (false, s) else rest).0 ≡ false) ↔ ((t ≡ true) ⊎ Q)
  round_iff true s rest Q iff = ((λ e. inl refl), λ e. refl)
  round_iff false s rest Q iff = (
    (λ e. inr (iff.0 e)),
    λ e. elim e [ inl absurd_test ↦ absurd (cc absurd_test) | inr q ↦ iff.1 q ],
  )

  check_handover-TakesOver :
      (is : List ℕ) (s : Controller W)
      → Agrees s
      → ((check_handover last is s).0 ≡ false) ↔ Any TakesOver is
  unfolding check_handover is_virtual_network
  check_handover-TakesOver [] s same = ((λ e. absurd (cc e)), λ x. absurd x)
  check_handover-TakesOver (idx ∷ is) s same =
      let r = number_at (Map.find idx s.ifindex_to_last_net_id) idx s.ifindex_to_last_net_id in
      let s' = record s { ifindex_to_last_net_id = r.1 } in
      let rest =
        check_handover-TakesOver is s'
          (same.0, λ i. kept_numbers idx i s.ifindex_to_last_net_id ∙ same.1 i) in
      let number = read_number idx s.ifindex_to_last_net_id ∙ same.1 idx in
      let test = (last == r.0) && is_virtual_network s' r.0 in
      let same_test = test_same s' r.0 (last_net_id c idx) number same.0 in
      subst
        (λ t.
          ((if test then (false, s') else check_handover last is s').0 ≡ false)
          ↔ ((t ≡ true) ⊎ Any TakesOver is))
        same_test (round_iff test s' (check_handover last is s') (Any TakesOver is) rest)

some_injective : {m n : ℕ} → some m ≡ some n → m ≡ n
some_injective e = cc e

list_injective : {m n : List ℕ} → some m ≡ some n → m ≡ n
list_injective e = cc e

module _ {W : Type 0} (ifindex : ℕ) (address : Name) (c : Controller W) where
  -- The interface has been on a network, and another interface with the address was last there.
  abbrev pub HandsOverFrom : List ℕ → Type 0
  HandsOverFrom is =
      (OrderedSet.contains ifindex is ≡ true)
      × ((last : ℕ) × (Map.find ifindex c.ifindex_to_last_net_id ≡ some last)
          × Any (TakesOver last c) (OrderedSet.erase ifindex is))

  -- The address is left to another interface of the VPN that the interface was last on.
  abbrev pub HandsOver : Type 0
  HandsOver = (is : List ℕ) × (Map.find address c.address_to_ifindices ≡ some is) × HandsOverFrom is

  after_erase-HandsOver :
      (o : Option ℕ) (left : List ℕ) (s : Controller W)
      → Agrees 0 c s
      → ((after_erase o left s).0 ≡ false)
        ↔ ((last : ℕ) × (o ≡ some last) × Any (TakesOver last c) left)
  unfolding after_erase
  after_erase-HandsOver none left s same = ((λ e. absurd (cc e)), λ (last, e, _). absurd (cc e))
  after_erase-HandsOver (some last) left s same =
      let iff = check_handover-TakesOver last c left s same in
      (
        (λ e. (last, refl, iff.0 e)),
        λ (last', e, any).
            iff.1 (subst (λ l. Any (TakesOver l c) left) (some_injective (sym e)) any),
      )

  none_left : (left : List ℕ) (P : ℕ → Type 0) → is_empty left ≡ true → Any P left → ⊥
  unfolding is_empty
  none_left [] P e any = any
  none_left (i ∷ is) P e any = cc e

  remove_from-HandsOver :
      (is : List ℕ) → ((remove_from ifindex address (some is) c).0 ≡ false) ↔ HandsOverFrom is
  unfolding remove_from
  remove_from-HandsOver is = elim (Bool-cases (not (OrderedSet.contains ifindex is))) [
    | inl absent ↦ rw absent ((λ e. absurd (cc e)), λ h. absurd (ground (arith, absent, h.0)))
    | inr there ↦
        let left = OrderedSet.erase ifindex is in
        rw there (elim (Bool-cases (is_empty left)) [
          | inl e ↦ rw e (
            (λ e'. absurd (cc e')),
            λ (_, (last, _, any)). absurd (none_left left (TakesOver last c) e any),
          )
          | inr e ↦
              let s = record c {
                address_to_ifindices = Map.insert address left c.address_to_ifindices;
              } in
              let iff =
                after_erase-HandsOver (Map.find ifindex c.ifindex_to_last_net_id) left s
                  (refl, λ i. refl) in
              rw e ((λ h. (ground (arith, there), iff.0 h)), λ h. iff.1 h.1)
        ])
  ]

  found_at :
      (o : Option (List ℕ))
      → ((remove_from ifindex address o c).0 ≡ false)
        ↔ ((is : List ℕ) × (o ≡ some is) × HandsOverFrom is)
  found_at none = (unfold remove_from in λ e. absurd (cc e), λ (is, e, _). absurd (cc e))
  found_at (some is) = (
    λ e. (is, refl, (remove_from-HandsOver is).0 e),
    λ (is', e, h). (remove_from-HandsOver is).1 (subst HandsOverFrom (list_injective (sym e)) h),
  )

  -- Sockets on an address that is removed from an interface are to be kept exactly if the interface
  -- had the address, has been on a network, and some other interface with the address has last been
  -- on that network too, which is a VPN now.
  pub remove_address-HandsOver :
      ((remove_interface_address ifindex address c).0 ≡ false) ↔ HandsOver
  unfolding remove_interface_address
  remove_address-HandsOver = found_at (Map.find address c.address_to_ifindices)
