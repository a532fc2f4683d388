-- ===== src/Controller/Selection/Best.antt =====
-- `getPhysicalOrUnreachableNetworkForUserLocked` of server/NetworkController.cpp: which network the
-- loop ends with.
use system_netd.Prelude.{
  ℕ, ◌≡◌, refl, sym, ◌∙◌, subst, ◌⊎◌, inl, inr, Bool, true, false, not, ◌&&◌, Option, none, some,
  [], ◌∷◌, if◌then◌else◌, arith, Bool-cases, All,
}
use system_netd.Prelude.Int.{ℤ, ◌≤ℤ◌, ltb_ℤ, eqb_ℤ}
use system_netd.Prelude.Keys.{nat_key}
use system_netd.Containers.Map
use system_netd.Containers.Map.{Map, Sorted, find_further, find_head}
use system_netd.Network.{
  Network, is_physical, is_unreachable, applies_to_user, sub_priority_no_default,
}
use system_netd.Controller.{
  Controller, better, find_best, get_physical_or_unreachable_network_for_user,
}

-- A physical or the unreachable network offers itself to a user as the default at a sub-priority.
abbrev pub Offers : ℕ → ℤ → Network → Type 0
Offers uid q n =
    ((is_physical n ≡ true) ⊎ (is_unreachable n ≡ true))
    × (applies_to_user n uid ≡ some q)
    × (eqb_ℤ q sub_priority_no_default ≡ false)

-- No network offers itself below the sub-priority.
abbrev pub NoneBelow : ℕ → ℤ → Map ℕ Network → Type 0
NoneBelow uid b ns = All (λ e. (q : ℤ) → Offers uid q e.1 → b ≤ℤ q) ns

-- What an entry makes of the best so far.
round : Network → ℕ → Option Network × ℤ → Option Network × ℤ
unfolding better
round n uid best =
    if not (is_physical n) && not (is_unreachable n)
    then best
    else better n (applies_to_user n uid) best

abbrev passed_over : Network → Bool
passed_over n = not (is_physical n) && not (is_unreachable n)

abbrev pub RoundCases : Network → ℕ → Option Network × ℤ → Option Network × ℤ → Type 0
RoundCases n uid best r =
    ((r ≡ best) × ((q : ℤ) → Offers uid q n → best.1 ≤ℤ q))
    ⊎ ((q : ℤ) × (r ≡ (some n, q)) × Offers uid q n × (ltb_ℤ q best.1 ≡ true))

some_injective : {q q' : ℤ} → some q ≡ some q' → q ≡ q'
some_injective e = cc e

better_cases :
    (n : Network) (uid : ℕ) (best : Option Network × ℤ) (o : Option ℤ)
    → passed_over n ≡ false
    → applies_to_user n uid ≡ o
    → RoundCases n uid best (better n o best)
unfolding better
better_cases n uid best none kind e = inl (refl, λ q (_, e', _). absurd (cc (e, e')))
better_cases n uid best (some q) kind e = elim (Bool-cases (eqb_ℤ q sub_priority_no_default)) [
  | inl last ↦
      rw last
        (inl (refl, λ q' (_, e', other). absurd (cc (some_injective (sym e ∙ e'), last, other))))
  | inr other ↦ elim (Bool-cases (ltb_ℤ q best.1)) [
    | inl less ↦ rw (other, less) (inr (q, refl, (ground (arith, kind), e, other), less))
    | inr more ↦
        rw (other, more)
          (inl (
            refl,
            λ q' (_, e', _).
                subst (λ z. best.1 ≤ℤ z) (some_injective (sym e ∙ e')) (ground (arith, more)),
          ))
  ]
]

-- A round leaves the best as it is, or takes the network, at a smaller sub-priority.
round_cases :
    (n : Network) (uid : ℕ) (best : Option Network × ℤ) → RoundCases n uid best (round n uid best)
unfolding round
round_cases n uid best = elim (Bool-cases (passed_over n)) [
  | inl skip ↦ rw skip (inl (refl, λ q offer. absurd (ground (arith, skip, offer.0))))
  | inr kind ↦ rw kind (better_cases n uid best (applies_to_user n uid) kind refl)
]

abbrev pub Listed : ℕ → ℤ → Network → Map ℕ Network → Type 0
Listed uid q n ns = ((i : ℕ) × (Map.find i ns ≡ some n)) × Offers uid q n

-- Where the loop ends: at its first best, which no network is below, or at a network of the map,
-- at a sub-priority smaller than the first, which no other network is below.
abbrev pub Ends : ℕ → Map ℕ Network → Option Network × ℤ → Option Network × ℤ → Type 0
Ends uid ns best r =
    NoneBelow uid r.1 ns
    × (((r ≡ best))
        ⊎ ((n : Network) × (q : ℤ) × (r ≡ (some n, q))
            × Listed uid q n ns
            × (ltb_ℤ q best.1 ≡ true)))

Below : Option Network × ℤ → Option Network × ℤ → Type 0
Below r best = r.1 ≤ℤ best.1

Ends-Below :
    (uid : ℕ) (ns : Map ℕ Network) (best r : Option Network × ℤ) → Ends uid ns best r → Below r best
unfolding Below
Ends-Below uid ns best r (_, inl same) = rw same (omega arith)
Ends-Below uid ns best r (_, inr (n, q, same, _, less)) = rw same (ground (arith, less))

-- A later network that is listed behind the head.
Listed-further :
    (uid i : ℕ) (q : ℤ) (n m : Network) (ns : Map ℕ Network)
    → Sorted ((i, m) ∷ ns)
    → Listed uid q n ns
    → Listed uid q n ((i, m) ∷ ns)
Listed-further uid i q n m ns s ((j, here), offer) = ((j, find_further i j m n ns s.0 here), offer)

step_Ends :
    (i : ℕ) (n : Network) (ns : Map ℕ Network) (uid : ℕ) (best mid r : Option Network × ℤ)
    → Sorted ((i, n) ∷ ns)
    → RoundCases n uid best mid
    → Ends uid ns mid r
    → Below r mid
    → Ends uid ((i, n) ∷ ns) best r
unfolding Below
step_Ends i n ns uid best mid r s (inl (kept, none_below)) (least, from) low =
    let low' : r.1 ≤ℤ best.1 = subst (λ z. r.1 ≤ℤ z.1) kept low in
    (
      (λ q offer. omega (arith, low', none_below q offer), least),
      elim from [
        | inl same ↦ inl (same ∙ kept)
        | inr (m, q, e, l, less) ↦
            inr (
              m,
              q,
              e,
              Listed-further uid i q m n ns s l,
              subst (λ z. ltb_ℤ q z.1 ≡ true) kept less,
            )
      ],
    )
step_Ends i n ns uid best mid r s (inr (q, taken, offer, less)) (least, from) low =
    let low' : r.1 ≤ℤ q = subst (λ z. r.1 ≤ℤ z.1) taken low in
    (
      (λ q' (_, e', _). subst (λ z. r.1 ≤ℤ z) (some_injective (sym offer.1 ∙ e')) low', least),
      elim from [
        | inl same ↦ inr (n, q, same ∙ taken, ((i, find_head i n ns), offer), less)
        | inr (m, q', e, l, less') ↦
            let before = subst (λ z. ltb_ℤ q' z.1 ≡ true) taken less' in
            inr (m, q', e, Listed-further uid i q' m n ns s l, ground (arith, before, less))
      ],
    )

find_best-Ends :
    (ns : Map ℕ Network) (uid : ℕ) (best : Option Network × ℤ)
    → Sorted ns
    → Ends uid ns best (find_best ns uid best)
unfolding find_best round
find_best-Ends [] uid best s = (tt, inl refl)
find_best-Ends ((i, n) ∷ ns) uid best s =
    let mid = round n uid best in
    let rest = find_best-Ends ns uid mid s.1 in
    step_Ends i n ns uid best mid (find_best ns uid mid) s (round_cases n uid best) rest
      (Ends-Below uid ns mid (find_best ns uid mid) rest)

-- What an answer of the search says of the map.
abbrev pub Least : ℕ → Map ℕ Network → Option Network → Type 0
Least uid ns none = NoneBelow uid sub_priority_no_default ns
Least uid ns (some n) =
    (q : ℤ) × Listed uid q n ns × (ltb_ℤ q sub_priority_no_default ≡ true) × NoneBelow uid q ns

module _ {W : Type 0} (c : Controller W) (uid : ℕ) (s : Sorted c.networks) where
  Ends-Least :
      (r : Option Network × ℤ)
      → Ends uid c.networks (none, sub_priority_no_default) r
      → Least uid c.networks r.0
  Ends-Least r (least, inl same) =
      subst (λ z. Least uid c.networks z.0) (sym same)
        (subst (λ z. NoneBelow uid z.1 c.networks) same least)
  Ends-Least r (least, inr (m, q, same, listed, less)) =
      subst (λ z. Least uid c.networks z.0) (sym same)
        (q, listed, less, subst (λ z. NoneBelow uid z.1 c.networks) same least)

  -- In a sorted map of networks: a network that is found is in the map, is physical or the
  -- unreachable one, and offers itself to the user at a sub-priority below
  -- SUB_PRIORITY_NO_DEFAULT that no network of the map is below; and if none is found, no network
  -- offers itself below SUB_PRIORITY_NO_DEFAULT.
  pub best-Least : Least uid c.networks (get_physical_or_unreachable_network_for_user c uid)
  unfolding get_physical_or_unreachable_network_for_user
  best-Least =
      let best = find_best c.networks uid (none, sub_priority_no_default) in
      Ends-Least best (find_best-Ends c.networks uid (none, sub_priority_no_default) s)
