-- ===== src/UidRanges.antt =====
-- server/UidRanges.h and server/UidRanges.cpp: sets of UIDs as sorted vectors of inclusive ranges.
-- `std::lower_bound` is its result on a sorted vector, the first entry that is not less;
-- `std::sort`, `std::inplace_merge` and `std::set_difference` are their sequential algorithms.
pub mod Membership
pub mod Overlap
pub mod Changes
pub mod Counts
pub mod Hidden
pub mod Parse
use system_netd.Prelude.{
  ℕ, ◌-◌, ◌^◌, ◌<◌, ◌≡◌, Bool, true, false, ◌&&◌, ◌||◌, not, Option, none, some, List, [], ◌∷◌, ltb,
  arith, if◌then◌else◌, ◌++◌, refl,
}
use system_netd.Prelude.Int.{ℤ, pos, negsuc, ltb_ℤ, leb_ℤ, eqb_ℤ, ◌≤ℤ◌}

pub record UidRangeParcel : Type 0 where
  pub start : ℤ
  pub stop : ℤ

pub record UidRanges : Type 0 where
  pub ranges : List UidRangeParcel

abbrev pub int32_max : ℕ
int32_max = 2 ^ 31 - 1

unfoldable pub comp_uid_range_parcel : UidRangeParcel → UidRangeParcel → Bool
comp_uid_range_parcel lhs rhs =
    if not (eqb_ℤ lhs.start rhs.start) then ltb_ℤ lhs.start rhs.start else ltb_ℤ lhs.stop rhs.stop

unfoldable pub is_overlapped : UidRangeParcel → UidRangeParcel → Bool
is_overlapped r1 r2 = leb_ℤ r2.start r1.stop && leb_ℤ r1.start r2.stop

pub make_uid_range_parcel : ℤ → ℤ → UidRangeParcel
make_uid_range_parcel start stop = record { start = start; stop = stop }

-- The entry before the iterator, if it is not `begin()`, and the entry at it, if it is not `end()`.
pub lower_bound :
    Option UidRangeParcel
    → List UidRangeParcel
    → UidRangeParcel
    → Option UidRangeParcel × Option UidRangeParcel
lower_bound before [] key = (before, none)
lower_bound before (r ∷ rs) key =
    let rest = lower_bound (some r) rs key in
    if comp_uid_range_parcel r key then rest else (before, some r)

pub starts_at : ℤ → Option UidRangeParcel → Bool
starts_at uid none = false
starts_at uid (some r) = eqb_ℤ r.start uid

pub reaches : ℤ → Option UidRangeParcel → Bool
reaches uid none = false
reaches uid (some r) = leb_ℤ uid r.stop

unfoldable pub has_uid : UidRanges → ℕ → Bool
unfolding lower_bound make_uid_range_parcel starts_at reaches comp_uid_range_parcel
has_uid u uid =
    if ltb int32_max uid
    then false
    else (let int_uid = pos uid in
        let found = lower_bound none u.ranges (make_uid_range_parcel int_uid int_uid) in
        starts_at int_uid found.1 || reaches int_uid found.0)

pub insert_sorted : UidRangeParcel → List UidRangeParcel → List UidRangeParcel
insert_sorted r [] = r ∷ []
insert_sorted r (x ∷ xs) =
    let rest = x ∷ insert_sorted r xs in if comp_uid_range_parcel x r then rest else r ∷ x ∷ xs

-- `std::sort` by `compUidRangeParcel`
pub sort : List UidRangeParcel → List UidRangeParcel
unfolding insert_sorted comp_uid_range_parcel
sort [] = []
sort (r ∷ rs) = insert_sorted r (sort rs)

-- the constructor from a vector of parcels
unfoldable pub from_parcels : List UidRangeParcel → UidRanges
unfolding sort
from_parcels ps = record { ranges = sort ps }

unfoldable pub is_empty : UidRanges → Bool
is_empty u = elim u.ranges [ [] ↦ true | _ ∷ _ ↦ false ]

-- `std::inplace_merge`: on a tie the entry of the first half comes first
pub merge : List UidRangeParcel → List UidRangeParcel → List UidRangeParcel
merge [] ys = ys
merge (x ∷ xs) [] = x ∷ xs
merge (x ∷ xs) (y ∷ ys) =
    let second = y ∷ merge (x ∷ xs) ys in
    let first = x ∷ merge xs (y ∷ ys) in if comp_uid_range_parcel y x then second else first

unfoldable pub add : UidRanges → UidRanges → UidRanges
unfolding merge comp_uid_range_parcel
add u other = record u { ranges = merge u.ranges other.ranges }

-- `std::set_difference`
pub set_difference : List UidRangeParcel → List UidRangeParcel → List UidRangeParcel
set_difference [] ys = []
set_difference (x ∷ xs) [] = x ∷ xs
set_difference (x ∷ xs) (y ∷ ys) =
    let kept = x ∷ set_difference xs (y ∷ ys) in
    let skipped = set_difference (x ∷ xs) ys in
    let dropped = set_difference xs ys in
    if comp_uid_range_parcel x y
    then kept
    else if comp_uid_range_parcel y x
    then skipped
    else dropped

unfoldable pub remove : UidRanges → UidRanges → UidRanges
unfolding set_difference comp_uid_range_parcel
remove u other = record u { ranges = set_difference u.ranges other.ranges }

-- the inner loop: one entry against those behind it
pub overlaps_any : UidRangeParcel → List UidRangeParcel → Bool
overlaps_any r [] = false
overlaps_any r (x ∷ xs) = is_overlapped r x || overlaps_any r xs

pub overlaps_within : List UidRangeParcel → Bool
overlaps_within [] = false
overlaps_within (r ∷ rs) = overlaps_any r rs || overlaps_within rs

unfoldable pub overlaps_self : UidRanges → Bool
unfolding overlaps_within overlaps_any is_overlapped
overlaps_self u = overlaps_within u.ranges
