-- ===== src/UidRanges/Membership.antt =====
-- Which UIDs a set holds: the binary search of `hasUid` against the plain reading of the ranges.
use system_netd.Prelude.{
  ℕ, ◌+◌, ◌<◌, ◌≡◌, refl, Bool, false, ◌&&◌, ◌||◌, Option, none, some, List, [], ◌∷◌, arith, leb,
  All,
}
use system_netd.Prelude.Int.{ℤ, pos, pos_part, neg_part, ◌≤ℤ◌, leb_ℤ}
use system_netd.UidRanges.{
  UidRangeParcel, UidRanges, comp_uid_range_parcel, lower_bound, starts_at, reaches, has_uid,
  int32_max,
}

infix 50 ◌<ℤ◌
abbrev pub ◌<ℤ◌ : ℤ → ℤ → Type 0
a <ℤ b = pos_part a + neg_part b < pos_part b + neg_part a

-- The inclusive range holds the UID.
abbrev pub in_range : ℤ → UidRangeParcel → Bool
in_range uid r = leb_ℤ r.start uid && leb_ℤ uid r.stop

-- Some range of the vector holds the UID.
abbrev pub holds : ℤ → List UidRangeParcel → Bool
holds uid [] = false
holds uid (r ∷ rs) = in_range uid r || holds uid rs

-- Ranges that are not empty, in rising order, with no UID in two of them.
abbrev pub Apart : List UidRangeParcel → Type 0
Apart [] = Unit
Apart (r ∷ rs) = (r.start ≤ℤ r.stop) × All (λ s. r.stop <ℤ s.start) rs × Apart rs

holds_below :
    (uid : ℤ) (rs : List UidRangeParcel) → All (λ s. uid <ℤ s.start) rs → holds uid rs ≡ false
holds_below uid [] h = refl
holds_below uid (r ∷ rs) h = ground (arith, holds_below uid rs h.1)

All-later :
    (a b : ℤ) (rs : List UidRangeParcel)
    → a ≤ℤ b
    → All (λ s. b <ℤ s.start) rs
    → All (λ s. a <ℤ s.start) rs
All-later a b [] le h = tt
All-later a b (r ∷ rs) le h = (omega arith, All-later a b rs le h.1)

-- What `has_uid` makes of the two entries that the search finds.
abbrev verdict : ℤ → Option UidRangeParcel × Option UidRangeParcel → Bool
verdict uid found = starts_at uid found.1 || reaches uid found.0

abbrev point : ℤ → UidRangeParcel
point uid = record { start = uid; stop = uid }

search_after :
    (uid : ℤ) (b : UidRangeParcel) (rs : List UidRangeParcel)
    → Apart (b ∷ rs)
    → b.start <ℤ uid
    → verdict uid (lower_bound (some b) rs (point uid)) ≡ holds uid (b ∷ rs)
unfolding lower_bound starts_at reaches comp_uid_range_parcel
search_after uid b [] apart lt = ground arith
search_after uid b (r ∷ rs) apart lt =
    ground (arith, search_after uid r rs apart.2, holds_below uid rs, All-later uid r.stop rs)

search_first :
    (uid : ℤ) (rs : List UidRangeParcel)
    → Apart rs
    → verdict uid (lower_bound none rs (point uid)) ≡ holds uid rs
unfolding lower_bound starts_at reaches comp_uid_range_parcel
search_first uid [] apart = refl
search_first uid (r ∷ rs) apart =
    ground (arith, search_after uid r rs apart, holds_below uid rs, All-later uid r.stop rs)

-- The verdict of the binary search is membership in some range, if the ranges lie apart; a UID that
-- is no `int32_t` is in none.
pub has_uid-eq-holds :
    (u : UidRanges) (uid : ℕ)
    → Apart u.ranges
    → has_uid u uid ≡ (leb uid int32_max && holds (pos uid) u.ranges)
unfolding has_uid
has_uid-eq-holds u uid apart = ground (arith, search_first (pos uid) u.ranges apart)
