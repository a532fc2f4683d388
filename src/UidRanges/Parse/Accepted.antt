-- ===== src/UidRanges/Parse/Accepted.antt =====
-- What parseFrom accepts.
use system_netd.Prelude.{
  ℕ, ◌≡◌, inl, inr, Bool, true, false, some, List, [], ◌∷◌, ◌++◌, map, refl, ap, ◌∙◌, sym, Any,
  Option-cases,
}
use system_netd.Prelude.Int.{to_int32}
use system_netd.Prelude.Keys.{Name}
use system_netd.UidRanges.{UidRangeParcel, UidRanges, from_parcels, make_uid_range_parcel}
use system_netd.UidRanges.Parse.{parse_range, parcel_of, parse_ranges, parse_from}
use system_netd.UidRanges.Parse.Spelled.{Spells, parse_range-Spells, parse_range-some}

-- Each argument spells the range at its place.
abbrev pub SpellEach : List Name → List (ℕ × ℕ) → Type 0
SpellEach [] [] = Unit
SpellEach (arg ∷ args) (r ∷ ranges) = Spells arg r × SpellEach args ranges
SpellEach _ _ = ⊥

-- The ends as signed numbers of 32 bits.
abbrev pub signed_range : ℕ × ℕ → UidRangeParcel
signed_range r = record { start = to_int32 r.0; stop = to_int32 r.1 }

-- The outcome `r` of parsing `args` after the ranges `before`.
pub data Parses (args : List Name) (before : List UidRangeParcel) (r : Bool × UidRanges)
    : Type 0 where
  accepted :
      (ranges : List (ℕ × ℕ))
      → SpellEach args ranges
      → r ≡ (true, from_parcels (before ++ map signed_range ranges))
      → Parses args before r
  rejected :
      Any (λ arg. (range : ℕ × ℕ) → Spells arg range → ⊥) args → r.0 ≡ false → Parses args before r

parcel-signed : (r : ℕ × ℕ) → parcel_of r ≡ signed_range r
unfolding parcel_of make_uid_range_parcel
parcel-signed r = refl

append_assoc :
    (xs ys : List UidRangeParcel) (y : UidRangeParcel) → (xs ++ (y ∷ [])) ++ ys ≡ xs ++ (y ∷ ys)
append_assoc [] ys y = refl
append_assoc (x ∷ xs) ys y = ap (λ zs. x ∷ zs) (append_assoc xs ys y)

append_nil : (xs : List UidRangeParcel) → xs ++ [] ≡ xs
append_nil [] = refl
append_nil (x ∷ xs) = ap (λ ys. x ∷ ys) (append_nil xs)

later_accepted :
    (arg : Name) (args : List Name) (before : List UidRangeParcel) (r : ℕ × ℕ)
    (out : Bool × UidRanges)
    → parse_range arg ≡ some r
    → Parses args (before ++ (parcel_of r ∷ [])) out
    → Parses (arg ∷ args) before out
later_accepted arg args before r out e (accepted ranges spelt same) =
    accepted (r ∷ ranges) (parse_range-Spells arg r e, spelt)
      (same
        ∙ ap (λ ps. (true, from_parcels ps))
            (append_assoc before (map signed_range ranges) (parcel_of r)
              ∙ ap (λ s. before ++ (s ∷ map signed_range ranges)) (parcel-signed r)))
later_accepted arg args before r out e (rejected at fails) = rejected (inr at) fails

parse_ranges-Parses :
    (args : List Name) (before : List UidRangeParcel)
    → Parses args before (parse_ranges args before)
unfolding parse_ranges
parse_ranges-Parses [] before =
    accepted [] tt (ap (λ ps. (true, from_parcels ps)) (sym (append_nil before)))
parse_ranges-Parses (arg ∷ args) before = elim (Option-cases (parse_range arg)) [
  | inl e ↦
      rejected (inl (λ r spelt. absurd (cc (sym e ∙ parse_range-some arg r spelt))))
        (rw (e, parse_ranges) refl)
  | inr (r, e) ↦
      rw (e, parse_ranges)
        (later_accepted arg args before r (parse_ranges args (before ++ (parcel_of r ∷ []))) e
          (parse_ranges-Parses args (before ++ (parcel_of r ∷ []))))
]

-- parseFrom accepts a list of arguments exactly if each spells a range: a number, or two with a dash
-- between them, cut to 32 bits as unsigned numbers, in order, neither of which is INVALID_UID. The
-- set is then made of these ranges, with their ends cast to int32_t.
pub parse_from-Accepts : (args : List Name) → Parses args [] (parse_from args)
unfolding parse_from
parse_from-Accepts args = parse_ranges-Parses args []
