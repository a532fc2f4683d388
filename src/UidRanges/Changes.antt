-- ===== src/UidRanges/Changes.antt =====
-- `add` and `remove`: the merge and the difference of sorted vectors.
use system_netd.Prelude.{
  ◌≡◌, refl, sym, ap, subst, ◌∙◌, false, ◌||◌, List, [], ◌∷◌, arith, All, inl, inr, Bool-cases,
}
use system_netd.Prelude.Int.{ℤ, eq_of_parts}
use system_netd.UidRanges.{
  UidRangeParcel, UidRanges, comp_uid_range_parcel, merge, add, set_difference, remove,
}
use system_netd.UidRanges.Membership.{holds}
use system_netd.UidRanges.Overlap.{Rising, comp_asymm, All-after}

comp_total :
    (a b : UidRangeParcel)
    → comp_uid_range_parcel a b ≡ false
    → comp_uid_range_parcel b a ≡ false
    → a ≡ b
unfolding comp_uid_range_parcel
comp_total a b p q = ground (arith, eq_of_parts a.start b.start, eq_of_parts a.stop b.stop)

comp_irrefl : (a : UidRangeParcel) → comp_uid_range_parcel a a ≡ false
unfolding comp_uid_range_parcel
comp_irrefl a = ground arith

-- The entry comes before, or equals, each entry of the vector.
abbrev Leads : UidRangeParcel → List UidRangeParcel → Type 0
Leads a = All (λ s. comp_uid_range_parcel s a ≡ false)

merge-nil : (xs : List UidRangeParcel) → merge xs [] ≡ xs
unfolding merge
merge-nil [] = refl
merge-nil (x ∷ xs) = refl

merge-cons_left :
    (x : UidRangeParcel) (xs ys : List UidRangeParcel)
    → Leads x ys
    → merge (x ∷ xs) ys ≡ x ∷ merge xs ys
unfolding merge
merge-cons_left x xs [] h = ap (λ l. x ∷ l) (sym (merge-nil xs))
merge-cons_left x xs (y ∷ ys) h = rw (h.0)

merge-cons_right :
    (y : UidRangeParcel) (xs ys : List UidRangeParcel)
    → Leads y xs
    → Leads y ys
    → merge xs (y ∷ ys) ≡ y ∷ merge xs ys
unfolding merge
merge-cons_right y [] ys h k = refl
merge-cons_right y (x ∷ xs) ys h k = elim (Bool-cases (comp_uid_range_parcel y x)) [
  | inl e ↦ rw e
  | inr e ↦
      let same : x ≡ y = comp_total x y h.0 e in
      rw (e, merge-cons_right y xs ys h.1 k)
        (rw same (ap (λ l. y ∷ l) (sym (merge-cons_left y xs ys k))))
]

set_difference_self : (xs : List UidRangeParcel) → set_difference xs xs ≡ []
unfolding set_difference
set_difference_self [] = refl
set_difference_self (x ∷ xs) = rw (comp_irrefl x) (set_difference_self xs)

set_difference-merge :
    (xs ys : List UidRangeParcel) → Rising xs → Rising ys → set_difference (merge xs ys) ys ≡ xs
unfolding set_difference merge
set_difference-merge [] [] h k = refl
set_difference-merge [] (y ∷ ys) h k = set_difference_self (y ∷ ys)
set_difference-merge (x ∷ xs) [] h k = refl
set_difference-merge (x ∷ xs) (y ∷ ys) h k = elim (Bool-cases (comp_uid_range_parcel y x)) [
  | inl e ↦ rw (e, comp_irrefl y) (set_difference-merge (x ∷ xs) ys h k.1)
  | inr e ↦ elim (Bool-cases (comp_uid_range_parcel x y)) [
    | inl e' ↦ rw (e, e') (ap (λ l. x ∷ l) (set_difference-merge xs (y ∷ ys) h.1 k))
    | inr e' ↦
        let same : x ≡ y = comp_total x y e' e in
        let behind : Leads y xs = subst (λ z. Leads z xs) same h.0 in
        let joined : merge (x ∷ xs) ys ≡ y ∷ merge xs ys =
          merge-cons_left x xs ys (subst (λ z. Leads z ys) (sym same) k.0)
          ∙ ap (λ z. z ∷ merge xs ys) same in
        rw (e, e', e)
          (ap (λ l. set_difference l ys) (merge-cons_right y xs ys behind k.0 ∙ sym joined)
            ∙ set_difference-merge (x ∷ xs) ys h k.1)
  ]
]

All-merge :
    (P : UidRangeParcel → Type 0) (xs ys : List UidRangeParcel)
    → All P xs
    → All P ys
    → All P (merge xs ys)
unfolding merge
All-merge P [] ys h k = k
All-merge P (x ∷ xs) [] h k = h
All-merge P (x ∷ xs) (y ∷ ys) h k = elim (Bool-cases (comp_uid_range_parcel y x)) [
  | inl e ↦ rw e (k.0, All-merge P (x ∷ xs) ys h k.1)
  | inr e ↦ rw e (h.0, All-merge P xs (y ∷ ys) h.1 k)
]

merge-Rising : (xs ys : List UidRangeParcel) → Rising xs → Rising ys → Rising (merge xs ys)
unfolding merge
merge-Rising [] ys h k = k
merge-Rising (x ∷ xs) [] h k = h
merge-Rising (x ∷ xs) (y ∷ ys) h k = elim (Bool-cases (comp_uid_range_parcel y x)) [
  | inl e ↦
      let before = comp_asymm y x e in
      rw e (
        All-merge (λ s. comp_uid_range_parcel s y ≡ false) (x ∷ xs) ys
            (before, All-after y x xs before h.0) k.0,
        merge-Rising (x ∷ xs) ys h k.1,
      )
  | inr e ↦ rw e (
    All-merge (λ s. comp_uid_range_parcel s x ≡ false) xs (y ∷ ys) h.0 (e, All-after x y ys e k.0),
    merge-Rising xs (y ∷ ys) h.1 k,
  )
]

All-set_difference :
    (P : UidRangeParcel → Type 0) (xs ys : List UidRangeParcel)
    → All P xs
    → All P (set_difference xs ys)
unfolding set_difference
All-set_difference P [] ys h = tt
All-set_difference P (x ∷ xs) [] h = h
All-set_difference P (x ∷ xs) (y ∷ ys) h = ground (
  arith,
  All-set_difference P xs (y ∷ ys) h.1,
  All-set_difference P (x ∷ xs) ys h,
  All-set_difference P xs ys h.1,
)

set_difference-Rising : (xs ys : List UidRangeParcel) → Rising xs → Rising (set_difference xs ys)
unfolding set_difference
set_difference-Rising [] ys h = tt
set_difference-Rising (x ∷ xs) [] h = h
set_difference-Rising (x ∷ xs) (y ∷ ys) h = ground (
  arith,
  All-set_difference (λ s. comp_uid_range_parcel s x ≡ false) xs (y ∷ ys) h.0,
  set_difference-Rising xs (y ∷ ys) h.1,
  set_difference-Rising (x ∷ xs) ys h,
  set_difference-Rising xs ys h.1,
)

-- Both changes keep the vector in the order that the searches and the merges rely on.
pub changes-Rising :
    (u other : UidRanges)
    → Rising u.ranges
    → Rising other.ranges
    → Rising (add u other).ranges × Rising (remove u other).ranges
unfolding add remove
changes-Rising u other h k =
    (merge-Rising u.ranges other.ranges h k, set_difference-Rising u.ranges other.ranges h)

holds-merge :
    (uid : ℤ) (xs ys : List UidRangeParcel)
    → holds uid (merge xs ys) ≡ (holds uid xs || holds uid ys)
unfolding merge
holds-merge uid [] ys = refl
holds-merge uid (x ∷ xs) [] = ground arith
holds-merge uid (x ∷ xs) (y ∷ ys) =
    ground (arith, holds-merge uid (x ∷ xs) ys, holds-merge uid xs (y ∷ ys))

-- Adding joins the two sets of UIDs, and removing what was just added restores the vector.
remove-add :
    (u other : UidRanges)
    → Rising u.ranges
    → Rising other.ranges
    → (remove (add u other) other ≡ u)
      × ((uid : ℤ)
          → holds uid (add u other).ranges ≡ (holds uid u.ranges || holds uid other.ranges))
unfolding add remove
remove-add u other h k = (
  ap (λ l. record { ranges = l }) (set_difference-merge u.ranges other.ranges h k),
  λ uid. holds-merge uid u.ranges other.ranges,
)
