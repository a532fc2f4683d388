-- ===== src/UidRanges/Overlap.antt =====
-- `overlapsSelf`, and what its answer means for a set that was built from a caller's ranges.
use system_netd.Prelude.{
  ℕ, ◌≡◌, refl, true, false, ◌&&◌, ◌||◌, List, [], ◌∷◌, arith, leb, All, inl, inr, Bool-cases,
}
use system_netd.Prelude.Int.{ℤ, pos, ◌≤ℤ◌}
use system_netd.UidRanges.{
  UidRangeParcel, comp_uid_range_parcel, is_overlapped, has_uid, insert_sorted, sort, from_parcels,
  overlaps_any, overlaps_within, overlaps_self, int32_max,
}
use system_netd.UidRanges.Membership.{in_range, holds, Apart, ◌<ℤ◌, has_uid-eq-holds}

-- Rising order by `compUidRangeParcel`; equal entries may repeat.
abbrev pub Rising : List UidRangeParcel → Type 0
Rising [] = Unit
Rising (r ∷ rs) = All (λ s. comp_uid_range_parcel s r ≡ false) rs × Rising rs

abbrev pub NonEmpty : UidRangeParcel → Type 0
NonEmpty r = r.start ≤ℤ r.stop

All-insert_sorted :
    (P : UidRangeParcel → Type 0) (r : UidRangeParcel) (xs : List UidRangeParcel)
    → P r
    → All P xs
    → All P (insert_sorted r xs)
unfolding insert_sorted
All-insert_sorted P r [] p h = (p, tt)
All-insert_sorted P r (x ∷ xs) p h = elim (Bool-cases (comp_uid_range_parcel x r)) [
  | inl e ↦ rw e (h.0, All-insert_sorted P r xs p h.1)
  | inr e ↦ rw e (p, h)
]

pub comp_asymm :
    (a b : UidRangeParcel) → comp_uid_range_parcel a b ≡ true → comp_uid_range_parcel b a ≡ false
unfolding comp_uid_range_parcel
comp_asymm a b h = ground arith

pub not_comp_trans :
    (a b c : UidRangeParcel)
    → comp_uid_range_parcel b a ≡ false
    → comp_uid_range_parcel c b ≡ false
    → comp_uid_range_parcel c a ≡ false
unfolding comp_uid_range_parcel
not_comp_trans a b c p q = ground arith

pub All-after :
    (a b : UidRangeParcel) (xs : List UidRangeParcel)
    → comp_uid_range_parcel b a ≡ false
    → All (λ s. comp_uid_range_parcel s b ≡ false) xs
    → All (λ s. comp_uid_range_parcel s a ≡ false) xs
All-after a b [] p h = tt
All-after a b (x ∷ xs) p h = (not_comp_trans a b x p h.0, All-after a b xs p h.1)

insert_sorted-Rising :
    (r : UidRangeParcel) (xs : List UidRangeParcel) → Rising xs → Rising (insert_sorted r xs)
unfolding insert_sorted
insert_sorted-Rising r [] h = (tt, tt)
insert_sorted-Rising r (x ∷ xs) h = elim (Bool-cases (comp_uid_range_parcel x r)) [
  | inl e ↦ rw e (
    All-insert_sorted (λ s. comp_uid_range_parcel s x ≡ false) r xs (comp_asymm x r e) h.0,
    insert_sorted-Rising r xs h.1,
  )
  | inr e ↦ rw e ((e, All-after r x xs e h.0), h)
]

pub sort-Rising : (ps : List UidRangeParcel) → Rising (sort ps)
unfolding sort
sort-Rising [] = tt
sort-Rising (p ∷ ps) = insert_sorted-Rising p (sort ps) (sort-Rising ps)

All-sort : (P : UidRangeParcel → Type 0) (ps : List UidRangeParcel) → All P ps → All P (sort ps)
unfolding sort
All-sort P [] h = tt
All-sort P (p ∷ ps) h = All-insert_sorted P p (sort ps) h.0 (All-sort P ps h.1)

holds-insert_sorted :
    (uid : ℤ) (r : UidRangeParcel) (xs : List UidRangeParcel)
    → holds uid (insert_sorted r xs) ≡ (in_range uid r || holds uid xs)
unfolding insert_sorted
holds-insert_sorted uid r [] = refl
holds-insert_sorted uid r (x ∷ xs) = ground (arith, holds-insert_sorted uid r xs)

holds-sort : (uid : ℤ) (ps : List UidRangeParcel) → holds uid (sort ps) ≡ holds uid ps
unfolding sort
holds-sort uid [] = refl
holds-sort uid (p ∷ ps) = ground (arith, holds-insert_sorted uid p (sort ps), holds-sort uid ps)

starts_behind :
    (r : UidRangeParcel) (xs : List UidRangeParcel)
    → NonEmpty r
    → All NonEmpty xs
    → All (λ s. comp_uid_range_parcel s r ≡ false) xs
    → overlaps_any r xs ≡ false
    → All (λ s. r.stop <ℤ s.start) xs
unfolding overlaps_any is_overlapped comp_uid_range_parcel
starts_behind r [] n ns h o = tt
starts_behind r (x ∷ xs) n ns h o = (ground arith, starts_behind r xs n ns.1 h.1 (ground arith))

Rising-Apart :
    (xs : List UidRangeParcel) → All NonEmpty xs → Rising xs → overlaps_within xs ≡ false → Apart xs
unfolding overlaps_within
Rising-Apart [] n h o = tt
Rising-Apart (x ∷ xs) n h o =
    (n.0, starts_behind x xs n.0 n.1 h.0 (ground arith), Rising-Apart xs n.1 h.1 (ground arith))

-- A set that is built from any list of non-empty ranges, in any order, and that passes
-- `overlapsSelf`, lies apart: `hasUid` then answers exactly whether some given range holds the UID.
pub has_uid-from_parcels :
    (ps : List UidRangeParcel) (uid : ℕ)
    → All NonEmpty ps
    → overlaps_self (from_parcels ps) ≡ false
    → has_uid (from_parcels ps) uid ≡ (leb uid int32_max && holds (pos uid) ps)
unfolding from_parcels overlaps_self
has_uid-from_parcels ps uid n o = rw (← holds-sort (pos uid) ps) (
    has_uid-eq-holds (from_parcels ps) uid
      (Rising-Apart (sort ps) (All-sort NonEmpty ps n) (sort-Rising ps) o))
