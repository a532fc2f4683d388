-- ===== src/UidRanges/Parse.antt =====
-- UidRanges::parseFrom of server/UidRanges.cpp, on arguments as bytes without the NUL at the end,
-- with the `strtoul` of C in base 0.
pub mod Spelled
pub mod Accepted
use system_netd.Prelude.{
  ℕ, ◌+◌, ◌-◌, ◌*◌, ◌%◌, ◌^◌, Bool, true, false, ◌&&◌, ◌||◌, Option, none, some, List, [], ◌∷◌,
  ◌++◌, ltb, leb, ◌==◌, if◌then◌else◌,
}
use system_netd.Prelude.Int.{to_int32}
use system_netd.Prelude.Keys.{Name}
use system_netd.Prelude.Strtoul.{strtoul}
use system_netd.UidRanges.{UidRangeParcel, UidRanges, make_uid_range_parcel, from_parcels}

abbrev pub invalid_uid : ℕ
invalid_uid = 2 ^ 32 - 1

check_uids : ℕ → ℕ → Option (ℕ × ℕ)
check_uids start stop =
    if (start == invalid_uid) || (stop == invalid_uid) then none else some (start, stop)

at_end : ℕ → ℕ → Name → Option (ℕ × ℕ)
unfolding check_uids
at_end start stop [] = if ltb stop start then none else check_uids start stop
at_end start stop (c ∷ cs) = none

after_dash : ℕ → Name → Option (ℕ × ℕ)
unfolding at_end strtoul
after_dash start [] = none
after_dash start (c ∷ cs) =
    let found = strtoul 0 (c ∷ cs) in at_end start (found.0 % 2 ^ 32) found.1

after_start : ℕ → Name → Option (ℕ × ℕ)
unfolding after_dash check_uids
after_start start [] = check_uids start start
after_start start (c ∷ cs) = if c == 45 then after_dash start cs else none

-- One round of the loop: `uidStart` and `uidEnd`, or `return false`.
unfoldable pub parse_range : Name → Option (ℕ × ℕ)
unfolding after_start strtoul
parse_range [] = none
parse_range (c ∷ cs) = let found = strtoul 0 (c ∷ cs) in after_start (found.0 % 2 ^ 32) found.1

unfoldable pub parcel_of : ℕ × ℕ → UidRangeParcel
unfolding make_uid_range_parcel
parcel_of r = make_uid_range_parcel (to_int32 r.0) (to_int32 r.1)

-- The loop, with the ranges so far.
unfoldable pub parse_ranges : List Name → List UidRangeParcel → Bool × UidRanges
unfolding parse_range parcel_of
parse_ranges [] ranges = (true, from_parcels ranges)
parse_ranges (arg ∷ args) ranges = elim (parse_range arg) [
  | none ↦ (false, record { ranges = ranges })
  | some r ↦ parse_ranges args (ranges ++ (parcel_of r ∷ []))
]

unfoldable pub parse_from : List Name → Bool × UidRanges
unfolding parse_ranges
parse_from args = parse_ranges args []
