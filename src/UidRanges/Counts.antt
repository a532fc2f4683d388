-- ===== src/UidRanges/Counts.antt =====
-- How often a vector has a range, after `add` and `remove`.
use system_netd.Prelude.{
  ℕ, ◌+◌, ◌-◌, ◌≡◌, refl, Bool, true, false, ◌&&◌, List, [], ◌∷◌, arith, All, Bool-cases, inl, inr,
  if◌then◌else◌,
}
use system_netd.Prelude.Int.{eqb_ℤ}
use system_netd.UidRanges.{
  UidRangeParcel, UidRanges, comp_uid_range_parcel, merge, add, set_difference, remove,
}
use system_netd.UidRanges.Overlap.{Rising}

abbrev pub same_range : UidRangeParcel → UidRangeParcel → Bool
same_range a b = eqb_ℤ a.start b.start && eqb_ℤ a.stop b.stop

abbrev pub count : UidRangeParcel → List UidRangeParcel → ℕ
count r [] = 0
count r (x ∷ xs) = (if same_range r x then 1 else 0) + count r xs

count-merge :
    (r : UidRangeParcel) (xs ys : List UidRangeParcel)
    → count r (merge xs ys) ≡ count r xs + count r ys
unfolding merge
count-merge r [] ys = omega arith
count-merge r (x ∷ xs) [] = omega arith
count-merge r (x ∷ xs) (y ∷ ys) = elim (Bool-cases (comp_uid_range_parcel y x)) [
  | inl e ↦ rw e (omega (arith, count-merge r (x ∷ xs) ys))
  | inr e ↦ rw e (omega (arith, count-merge r xs (y ∷ ys)))
]

before_not_same :
    (r x y : UidRangeParcel)
    → comp_uid_range_parcel x y ≡ true
    → same_range r x ≡ true
    → same_range r y ≡ false
unfolding comp_uid_range_parcel
before_not_same r x y h e = ground arith

before_after :
    (x y z : UidRangeParcel)
    → comp_uid_range_parcel x y ≡ true
    → comp_uid_range_parcel z y ≡ false
    → comp_uid_range_parcel x z ≡ true
unfolding comp_uid_range_parcel
before_after x y z h k = ground arith

all_after :
    (x y : UidRangeParcel) (ys : List UidRangeParcel)
    → comp_uid_range_parcel x y ≡ true
    → All (λ s. comp_uid_range_parcel s y ≡ false) ys
    → All (λ s. comp_uid_range_parcel x s ≡ true) ys
all_after x y [] h k = tt
all_after x y (z ∷ ys) h k = (before_after x y z h k.0, all_after x y ys h k.1)

count_absent :
    (r x : UidRangeParcel) (ys : List UidRangeParcel)
    → All (λ s. comp_uid_range_parcel x s ≡ true) ys
    → same_range r x ≡ true
    → count r ys ≡ 0
count_absent r x [] h e = refl
count_absent r x (y ∷ ys) h e =
    ground (arith, before_not_same r x y h.0 e, count_absent r x ys h.1 e)

-- A range before the head of a rising vector is not in it.
count_before :
    (r x y : UidRangeParcel) (ys : List UidRangeParcel)
    → comp_uid_range_parcel x y ≡ true
    → Rising (y ∷ ys)
    → same_range r x ≡ true
    → count r (y ∷ ys) ≡ 0
count_before r x y ys h rising e = count_absent r x (y ∷ ys) (h, all_after x y ys h rising.0) e

same_counts :
    (r x y : UidRangeParcel)
    → comp_uid_range_parcel x y ≡ false
    → comp_uid_range_parcel y x ≡ false
    → same_range r x ≡ same_range r y
unfolding comp_uid_range_parcel
same_counts r x y h k = ground arith

count-set_difference :
    (r : UidRangeParcel) (xs ys : List UidRangeParcel)
    → Rising xs
    → Rising ys
    → count r (set_difference xs ys) ≡ count r xs - count r ys
unfolding set_difference
count-set_difference r [] ys h k = omega arith
count-set_difference r (x ∷ xs) [] h k = omega arith
count-set_difference r (x ∷ xs) (y ∷ ys) h k = elim (Bool-cases (comp_uid_range_parcel x y)) [
  | inl e ↦
      rw e (ground (arith, count-set_difference r xs (y ∷ ys) h.1 k, count_before r x y ys e k))
  | inr e ↦ elim (Bool-cases (comp_uid_range_parcel y x)) [
    | inl e' ↦
        rw (e, e')
          (ground (arith, count-set_difference r (x ∷ xs) ys h k.1, count_before r y x xs e' h))
    | inr e' ↦
        rw (e, e') (ground (arith, count-set_difference r xs ys h.1 k.1, same_counts r x y e e'))
  ]
]

-- Adding joins the two vectors as multisets, and removing takes the difference of the multisets.
pub count-changes :
    (r : UidRangeParcel) (u other : UidRanges)
    → Rising u.ranges
    → Rising other.ranges
    → (count r (add u other).ranges ≡ count r u.ranges + count r other.ranges)
      × (count r (remove u other).ranges ≡ count r u.ranges - count r other.ranges)
unfolding add remove
count-changes r u other h k =
    (count-merge r u.ranges other.ranges, count-set_difference r u.ranges other.ranges h k)
