-- ===== src/Network/Held.antt =====
-- The ranges that a network has at a sub-priority, after they are added or removed.
use system_netd.Prelude.{
  ℕ, ◌+◌, ◌-◌, ◌≡◌, ◌≢◌, refl, sym, ap, ◌∙◌, true, false, Option, none, some, List, [], ◌∷◌, arith,
  Bool-cases, if◌then◌else◌, inl, inr,
}
use system_netd.Prelude.Int.{ℤ}
use system_netd.Prelude.Keys.{int_key}
use system_netd.Containers.Map
use system_netd.UidRanges
use system_netd.UidRanges.{UidRangeParcel, UidRanges}
use system_netd.UidRanges.Counts.{count, count-changes}
use system_netd.UidRanges.Overlap.{Rising}
use system_netd.Network.{Network, add_to_uid_range_map, remove_from_uid_range_map, joined, reduced}
use system_netd.Network.RangeMap.{InOrder, changes-InOrder, held}

abbrev pub ranges_of : Option UidRanges → List UidRangeParcel
ranges_of none = []
ranges_of (some u) = u.ranges

-- How often the network has the range at the sub-priority.
abbrev pub times : UidRangeParcel → ℤ → Network → ℕ
times r q n = count r (ranges_of (Map.find q n.uid_range_map))

-- Nothing of the network differs but its ranges at the sub-priority, and its map is in order.
pub record ChangedAt (q : ℤ) (n n' : Network) : Type 0 where
  pub rest : n' ≡ record n { uid_range_map = n'.uid_range_map }
  pub elsewhere : (j : ℤ) → j ≢ q → Map.find j n'.uid_range_map ≡ Map.find j n.uid_range_map
  pub ordered : InOrder n'.uid_range_map

-- The network has the ranges too.
pub record Added (ranges : UidRanges) (q : ℤ) (n n' : Network) : Type 0 where
  pub changed : ChangedAt q n n'
  pub more : (r : UidRangeParcel) → times r q n' ≡ times r q n + count r ranges.ranges

-- The network has each of the ranges as often less, and no entry without a range.
pub record Removed (ranges : UidRanges) (q : ℤ) (n n' : Network) : Type 0 where
  pub changed : ChangedAt q n n'
  pub fewer : (r : UidRangeParcel) → times r q n' ≡ times r q n - count r ranges.ranges
  pub none_left : (u : UidRanges) → Map.find q n'.uid_range_map ≡ some u → u.ranges ≢ []

find_other : (q j : ℤ) (a b : Option UidRanges) → j ≢ q → (if int_key.equal q j then a else b) ≡ b
find_other q j a b ne = elim (Bool-cases (int_key.equal q j)) [
  | inl same ↦ absurd (ne (sym ((int_key.equal_iff q j).0 same)))
  | inr other ↦ rw other refl
]

empty_ranges : (u : UidRanges) → UidRanges.is_empty u ≡ true → u.ranges ≡ []
unfolding UidRanges.is_empty
empty_ranges u e = no_entry u.ranges e
  where
    no_entry : (rs : List UidRangeParcel) → (elim rs [ [] ↦ true | _ ∷ _ ↦ false ]) ≡ true → rs ≡ []
    no_entry [] e = refl
    no_entry (r ∷ rs) e = absurd (cc e)

has_ranges : (v u : UidRanges) → UidRanges.is_empty v ≡ false → some v ≡ some u → u.ranges ≢ []
unfolding UidRanges.is_empty
has_ranges v u e same none_left =
    let at : v.ranges ≡ [] = ground (arith, same, none_left) in absurd (cc (rw at at e))

module _ (q : ℤ) (ranges : UidRanges) (n : Network) (ordered : InOrder n.uid_range_map)
    (rising : Rising ranges.ranges) where
  joined-counts :
      (r : UidRangeParcel) (o : Option UidRanges)
      → Map.find q n.uid_range_map ≡ o
      → count r (joined o ranges).ranges ≡ count r (ranges_of o) + count r ranges.ranges
  unfolding joined
  joined-counts r none e = omega arith
  joined-counts r (some u) e = (count-changes r u ranges (held q ranges n ordered u e) rising).0

  pub add-Added : Added ranges q n (add_to_uid_range_map ranges q n)
  unfolding add_to_uid_range_map
  add-Added =
      let now = joined (Map.find q n.uid_range_map) ranges in
      let here : Map.find q (Map.insert q now n.uid_range_map) ≡ some now =
        Map.find-insert q q now n.uid_range_map ∙ rw ((int_key.equal_iff q q).1 refl) refl in
      record {
        changed = record {
          rest = refl;
          elsewhere = λ j ne.
              Map.find-insert q j now n.uid_range_map
              ∙ find_other q j (some now) (Map.find j n.uid_range_map) ne;
          ordered = (changes-InOrder q ranges n ordered rising).0;
        };
        more = λ r.
            ap (λ o. count r (ranges_of o)) here
            ∙ joined-counts r (Map.find q n.uid_range_map) refl;
      }

  -- What is left of an entry.
  abbrev kept : Option UidRanges → Option UidRanges
  kept none = none
  kept (some u) =
      let left = UidRanges.remove u ranges in if UidRanges.is_empty left then none else some left

  find-reduced :
      (o : Option UidRanges) (j : ℤ)
      → Map.find q n.uid_range_map ≡ o
      → Map.find j (reduced o ranges q n.uid_range_map)
        ≡ (if int_key.equal q j then kept o else Map.find j n.uid_range_map)
  unfolding reduced
  find-reduced none j found = elim (Bool-cases (int_key.equal q j)) [
    | inl same ↦
        rw same
          (ap (λ i. Map.find i n.uid_range_map) (sym ((int_key.equal_iff q j).0 same)) ∙ found)
    | inr other ↦ rw other refl
  ]
  find-reduced (some u) j found =
      let left = UidRanges.remove u ranges in
      elim (Bool-cases (UidRanges.is_empty left)) [
        | inl e ↦ rw e (Map.find-erase q j n.uid_range_map)
        | inr e ↦ rw e (Map.find-insert q j left n.uid_range_map)
      ]

  kept-counts :
      (r : UidRangeParcel) (o : Option UidRanges)
      → Map.find q n.uid_range_map ≡ o
      → count r (ranges_of (kept o)) ≡ count r (ranges_of o) - count r ranges.ranges
  kept-counts r none found = omega arith
  kept-counts r (some u) found =
      let counts = (count-changes r u ranges (held q ranges n ordered u found) rising).1 in
      elim (Bool-cases (UidRanges.is_empty (UidRanges.remove u ranges))) [
        | inl e ↦ rw e (sym (ap (count r) (empty_ranges (UidRanges.remove u ranges) e)) ∙ counts)
        | inr e ↦ rw e counts
      ]

  kept-left : (o : Option UidRanges) (u : UidRanges) → kept o ≡ some u → u.ranges ≢ []
  kept-left none u e = absurd (cc e)
  kept-left (some v) u e = elim (Bool-cases (UidRanges.is_empty (UidRanges.remove v ranges))) [
    | inl gone ↦ let none_kept : none ≡ some u = rw gone at e in absurd (cc none_kept)
    | inr left ↦
        let same : some (UidRanges.remove v ranges) ≡ some u = rw left at e in
        has_ranges (UidRanges.remove v ranges) u left same
  ]

  pub remove-Removed : Removed ranges q n (remove_from_uid_range_map ranges q n)
  unfolding remove_from_uid_range_map
  remove-Removed =
      let o = Map.find q n.uid_range_map in
      let here : Map.find q (reduced o ranges q n.uid_range_map) ≡ kept o =
        find-reduced o q refl ∙ rw ((int_key.equal_iff q q).1 refl) refl in
      record {
        changed = record {
          rest = refl;
          elsewhere = λ j ne.
              find-reduced o j refl ∙ find_other q j (kept o) (Map.find j n.uid_range_map) ne;
          ordered = (changes-InOrder q ranges n ordered rising).1;
        };
        fewer = λ r. ap (λ a. count r (ranges_of a)) here ∙ kept-counts r o refl;
        none_left = λ u e. kept-left o u (sym here ∙ e);
      }
