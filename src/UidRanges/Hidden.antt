-- ===== src/UidRanges/Hidden.antt =====
-- `hasUid` of server/UidRanges.cpp on ranges that overlap, which `addUsers` lets in: the check
-- `canAddUidRanges` of server/Network.cpp looks at the new ranges alone.
use system_netd.Prelude.{ℕ, ◌≤◌, ◌<◌, ◌≡◌, refl, true, false, [], ◌∷◌, arith}
use system_netd.Prelude.Int.{pos}
use system_netd.UidRanges.{
  UidRanges, int32_max, comp_uid_range_parcel, make_uid_range_parcel, lower_bound, starts_at,
  reaches, has_uid, merge, add, overlaps_any, overlaps_within, overlaps_self,
}

-- One range.
abbrev pub one_range : ℕ → ℕ → UidRanges
one_range start stop = record { ranges = record { start = pos start; stop = pos stop } ∷ [] }

-- A range that is added inside another hides the UIDs behind it: the UID is in the old ranges, and
-- neither the old nor the added ranges overlap themselves, but the UID is not in the union.
pub has_uid-add :
    (start stop inner_start inner_stop uid : ℕ)
    → start < inner_start
    → inner_start ≤ inner_stop
    → inner_stop < uid
    → uid ≤ stop
    → stop ≤ int32_max
    → (has_uid (one_range start stop) uid ≡ true)
      × (overlaps_self (one_range start stop) ≡ false)
      × (overlaps_self (one_range inner_start inner_stop) ≡ false)
      × (has_uid (add (one_range start stop) (one_range inner_start inner_stop)) uid ≡ false)
unfolding has_uid add merge lower_bound make_uid_range_parcel starts_at reaches
    comp_uid_range_parcel overlaps_self overlaps_within overlaps_any
has_uid-add start stop inner_start inner_stop uid a b c d e =
    (ground arith, refl, refl, ground arith)
