-- ===== src/Tests/Parsing.antt =====
-- Arguments that parseFrom accepts, and arguments that it does not.
use system_netd.Prelude.{◌≡◌, refl, true, false, none, some, [], ◌∷◌, bytes}
use system_netd.UidRanges.Parse.{parse_range, parse_from}
use system_netd.Prelude.Int.{pos, negsuc}
use system_netd.UidRanges.{UidRanges, from_parcels, overlaps_self, has_uid}
use system_netd.UidRanges.Parse.Accepted.{Parses, parse_from-Accepts}

parse_from-Accepts_example :
    Parses (bytes "20" ∷ bytes "0x1-012" ∷ []) [] (parse_from (bytes "20" ∷ bytes "0x1-012" ∷ []))
parse_from-Accepts_example = parse_from-Accepts (bytes "20" ∷ bytes "0x1-012" ∷ [])

ranges_test :
    (parse_range (bytes "20") ≡ some (20, 20))
    × (parse_range (bytes "0x1-012") ≡ some (1, 10))
    × (parse_range (bytes " +7-08") ≡ none)
    × (parse_range (bytes "10-1") ≡ none)
    × (parse_range (bytes "-1") ≡ none)
unfolding parse_range
ranges_test = (refl, refl, refl, refl, refl)

-- A number is cut to 32 bits.
cut_test : parse_range (bytes "4294967296") ≡ some (0, 0)
unfolding parse_range
cut_test = refl

-- An end above INT32_MAX is accepted and makes an empty range, behind which `hasUid` misses UIDs.
abbrev wide : UidRanges
wide = record {
  ranges =
      record { start = pos 0; stop = pos 10 }
      ∷ record { start = pos 5; stop = negsuc 1294967295 }
      ∷ [];
}

wide_test :
    (parse_from (bytes "0-10" ∷ bytes "5-3000000000" ∷ []) ≡ (true, wide))
    × (overlaps_self wide ≡ false)
    × (has_uid wide 7 ≡ false)
unfolding parse_from from_parcels overlaps_self has_uid
wide_test = (refl, refl, refl)
