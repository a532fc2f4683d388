-- ===== src/Network/RangeMap.antt =====
-- The map from sub-priorities to UID ranges: its order, and the sub-priority of a user.
use system_netd.Prelude.{
  ℕ, ◌≡◌, refl, true, false, Option, none, some, [], ◌∷◌, arith, Bool-cases, All, inl, inr,
}
use system_netd.Prelude.Int.{ℤ, ltb_ℤ}
use system_netd.Prelude.Keys.{int_key}
use system_netd.Containers.Map
use system_netd.Containers.Map.{
  Sorted, All-insert, All-erase, All-find, find-cons_cases, find_head, insert-Sorted, erase-Sorted,
}
use system_netd.UidRanges
use system_netd.UidRanges.{UidRanges}
use system_netd.UidRanges.Overlap.{Rising}
use system_netd.UidRanges.Changes.{changes-Rising}
use system_netd.Platform.{UidRangeMap}
use system_netd.Network.{
  Network, add_to_uid_range_map, remove_from_uid_range_map, joined, reduced, sub_priority_for,
  applies_to_user,
}

-- Sub-priorities rise along the map, and each vector of ranges is in order.
pub record InOrder (m : UidRangeMap) : Type 0 where
  pub sorted : Sorted m
  pub rising : All (λ e. Rising e.1.ranges) m

-- The sub-priority that a user has: the least one whose ranges hold the UID.
pub data Applies (m : UidRangeMap) (uid : ℕ) : Option ℤ → Type 0 where
  nowhere :
      ((q : ℤ) (r : UidRanges) → Map.find q m ≡ some r → UidRanges.has_uid r uid ≡ false)
      → Applies m uid none
  least :
      (q : ℤ) (r : UidRanges)
      → Map.find q m ≡ some r
      → UidRanges.has_uid r uid ≡ true
      → ((q' : ℤ) (r' : UidRanges)
          → ltb_ℤ q' q ≡ true
          → Map.find q' m ≡ some r'
          → UidRanges.has_uid r' uid ≡ false)
      → Applies m uid (some q)

joined-Rising :
    (o : Option UidRanges) (ranges : UidRanges)
    → ((r : UidRanges) → o ≡ some r → Rising r.ranges)
    → Rising ranges.ranges
    → Rising (joined o ranges).ranges
unfolding joined
joined-Rising none ranges old h = h
joined-Rising (some r) ranges old h = (changes-Rising r ranges (old r refl) h).0

module _ (q : ℤ) (ranges : UidRanges) (n : Network) (ordered : InOrder n.uid_range_map) where
  pub held : (r : UidRanges) → Map.find q n.uid_range_map ≡ some r → Rising r.ranges
  held r e = All-find (λ e. Rising e.1.ranges) q r n.uid_range_map ordered.rising e

  add-InOrder : Rising ranges.ranges → InOrder (add_to_uid_range_map ranges q n).uid_range_map
  unfolding add_to_uid_range_map
  add-InOrder h = record {
    sorted = insert-Sorted q _ n.uid_range_map ordered.sorted;
    rising =
        All-insert (λ e. Rising e.1.ranges) q _ n.uid_range_map
          (joined-Rising (Map.find q n.uid_range_map) ranges held h) ordered.rising;
  }

reduced-InOrder :
    (o : Option UidRanges) (ranges : UidRanges) (q : ℤ) (m : UidRangeMap)
    → ((r : UidRanges) → o ≡ some r → Rising r.ranges)
    → Rising ranges.ranges
    → InOrder m
    → InOrder (reduced o ranges q m)
unfolding reduced
reduced-InOrder none ranges q m old h ordered = ordered
reduced-InOrder (some r) ranges q m old h ordered =
    elim (Bool-cases (UidRanges.is_empty (UidRanges.remove r ranges))) [
      | inl e ↦ rw e (record {
        sorted = erase-Sorted q m ordered.sorted;
        rising = All-erase (λ e. Rising e.1.ranges) q m ordered.rising;
      })
      | inr e ↦ rw e (record {
        sorted = insert-Sorted q _ m ordered.sorted;
        rising =
            All-insert (λ e. Rising e.1.ranges) q _ m (changes-Rising r ranges (old r refl) h).1
              ordered.rising;
      })
    ]

-- Both changes of the map keep it in order, if the ranges that come or go are in order.
pub changes-InOrder :
    (q : ℤ) (ranges : UidRanges) (n : Network)
    → InOrder n.uid_range_map
    → Rising ranges.ranges
    → InOrder (add_to_uid_range_map ranges q n).uid_range_map
      × InOrder (remove_from_uid_range_map ranges q n).uid_range_map
unfolding remove_from_uid_range_map
changes-InOrder q ranges n ordered h = (
  add-InOrder q ranges n ordered h,
  reduced-InOrder (Map.find q n.uid_range_map) ranges q n.uid_range_map (held q ranges n ordered) h
      ordered,
)

module _ (q : ℤ) (ranges : UidRanges) (m : UidRangeMap) (uid : ℕ) where
  find_below :
      (q' : ℤ) (r' : UidRanges)
      → All (λ e. ltb_ℤ q e.0 ≡ true) m
      → ltb_ℤ q' q ≡ true
      → Map.find q' ((q, ranges) ∷ m) ≡ some r'
      → ⊥
  find_below q' r' above lt e = elim (find-cons_cases q q' ranges r' m e) [
    | inl (same, _) ↦ ground arith
    | inr f ↦ ground (arith, All-find (λ e. ltb_ℤ q e.0 ≡ true) q' r' m above f)
  ]

  -- A first entry without the UID changes nothing for it.
  not_held :
      (q' : ℤ) (r' : UidRanges)
      → UidRanges.has_uid ranges uid ≡ false
      → (Map.find q' m ≡ some r' → UidRanges.has_uid r' uid ≡ false)
      → Map.find q' ((q, ranges) ∷ m) ≡ some r'
      → UidRanges.has_uid r' uid ≡ false
  not_held q' r' h behind e = elim (find-cons_cases q q' ranges r' m e) [
    | inl (_, same) ↦ rw (← same) h
    | inr f ↦ behind f
  ]

  Applies-cons :
      (o : Option ℤ)
      → All (λ e. ltb_ℤ q e.0 ≡ true) m
      → UidRanges.has_uid ranges uid ≡ false
      → Applies m uid o
      → Applies ((q, ranges) ∷ m) uid o
  unfolding Map.find
  Applies-cons _ above h (nowhere out) = nowhere (λ q' r' e. not_held q' r' h (out q' r') e)
  Applies-cons _ above h (least found r e t first) =
      least found r (ground (arith, e, All-find (λ e. ltb_ℤ q e.0 ≡ true) found r m above e)) t
        (λ q' r' lt e'. not_held q' r' h (first q' r' lt) e')

Applies-sub_priority :
    (m : UidRangeMap) (uid : ℕ) → Sorted m → Applies m uid (sub_priority_for m uid)
unfolding sub_priority_for
Applies-sub_priority [] uid h = nowhere (unfold Map.find in λ q r e. cc)
Applies-sub_priority ((q, ranges) ∷ m) uid h = elim (Bool-cases (UidRanges.has_uid ranges uid)) [
  | inl e ↦ rw e (
      least q ranges (find_head q ranges m) e
        (λ q' r' lt e'. absurd (find_below q ranges m uid q' r' h.0 lt e')))
  | inr e ↦ rw e (Applies-cons q ranges m uid _ h.0 e (Applies-sub_priority m uid h.1))
]

-- In an ordered map, `appliesToUser` reports the least sub-priority whose ranges hold the UID, and
-- reports none exactly if no ranges hold it.
applies_to_user-Applies :
    (n : Network) (uid : ℕ)
    → InOrder n.uid_range_map
    → Applies n.uid_range_map uid (applies_to_user n uid)
unfolding applies_to_user
applies_to_user-Applies n uid ordered = Applies-sub_priority n.uid_range_map uid ordered.sorted
