-- ===== src/UidRanges/Parse/Spelled.antt =====
-- What one argument of parseFrom spells.
use system_netd.Prelude.{
  ℕ, ◌-◌, ◌%◌, ◌^◌, ◌<◌, ◌≤◌, ◌≡◌, ◌≢◌, false, some, [], ◌∷◌, ltb, arith, refl, ap, ◌∙◌,
}
use system_netd.Prelude.Keys.{Name}
use system_netd.Prelude.Strtoul.{strtoul}
use system_netd.UidRanges.Parse.{check_uids, at_end, after_dash, after_start, parse_range}

-- Two unsigned ends in order, neither of which is INVALID_UID.
abbrev pub Valid : ℕ × ℕ → Type 0
Valid r = (r.0 ≤ r.1) × (r.1 < 2 ^ 32 - 1)

-- The number at the front of a text, cut to 32 bits.
abbrev pub number : Name → ℕ
number text = (strtoul 0 text).0 % 2 ^ 32

-- A number alone, or two numbers with a dash between them, and nothing behind.
pub data Spells (arg : Name) (r : ℕ × ℕ) : Type 0 where
  one_number :
      arg ≢ [] → (strtoul 0 arg).1 ≡ [] → r ≡ (number arg, number arg) → Valid r → Spells arg r
  two_numbers :
      (rest : Name)
      → arg ≢ []
      → (strtoul 0 arg).1 ≡ 45 ∷ rest
      → rest ≢ []
      → (strtoul 0 rest).1 ≡ []
      → r ≡ (number arg, number rest)
      → Valid r
      → Spells arg r

check_uids_iff :
    (start stop : ℕ) → start ≤ stop → stop < 2 ^ 32 - 1 → check_uids start stop ≡ some (start, stop)
unfolding check_uids
check_uids_iff start stop h b = ground (arith, h, b)

check_uids-Valid :
    (start stop : ℕ) (r : ℕ × ℕ)
    → start ≤ stop
    → stop < 2 ^ 32
    → check_uids start stop ≡ some r
    → (r ≡ (start, stop)) × Valid r
unfolding check_uids
check_uids-Valid start stop r h b e = ground (arith, e, h, b)

at_end-Valid :
    (start stop : ℕ) (r : ℕ × ℕ)
    → stop < 2 ^ 32
    → at_end start stop [] ≡ some r
    → (r ≡ (start, stop)) × Valid r
unfolding at_end
at_end-Valid start stop r b e = ground (arith, e, b, check_uids-Valid start stop r)

module _ (arg : Name) (some_text : arg ≢ []) (r : ℕ × ℕ) where
  after_dash-Spells :
      (rest : Name)
      → (strtoul 0 arg).1 ≡ 45 ∷ rest
      → after_dash (number arg) rest ≡ some r
      → Spells arg r
  unfolding after_dash at_end
  after_dash-Spells [] reads e = absurd (cc e)
  after_dash-Spells (c ∷ cs) reads e = by_rest (strtoul 0 (c ∷ cs)).1 refl e
    where
      by_rest :
          (rest : Name)
          → (strtoul 0 (c ∷ cs)).1 ≡ rest
          → at_end (number arg) (number (c ∷ cs)) rest ≡ some r
          → Spells arg r
      by_rest [] ends e =
          let valid = at_end-Valid (number arg) (number (c ∷ cs)) r (omega arith) e in
          two_numbers (c ∷ cs) some_text reads (λ h. absurd (cc h)) ends valid.0 valid.1
      by_rest (d ∷ ds) ends e = absurd (cc e)

  after_start-Spells :
      (rest : Name)
      → (strtoul 0 arg).1 ≡ rest
      → after_start (number arg) rest ≡ some r
      → Spells arg r
  unfolding after_start
  after_start-Spells [] reads e =
      let valid = check_uids-Valid (number arg) (number arg) r (omega arith) (omega arith) e in
      one_number some_text reads valid.0 valid.1
  after_start-Spells (c ∷ cs) reads e =
      let dash : c ≡ 45 = ground (arith, e) in
      let after : after_dash (number arg) cs ≡ some r = ground (arith, e) in
      after_dash-Spells cs (reads ∙ ap (λ d. d ∷ cs) dash) after

pub parse_range-Spells : (arg : Name) (r : ℕ × ℕ) → parse_range arg ≡ some r → Spells arg r
unfolding parse_range
parse_range-Spells [] r e = absurd (cc e)
parse_range-Spells (c ∷ cs) r e =
    after_start-Spells (c ∷ cs) (λ h. absurd (cc h)) r (strtoul 0 (c ∷ cs)).1 refl e

at_end-some :
    (start stop : ℕ) → start ≤ stop → stop < 2 ^ 32 - 1 → at_end start stop [] ≡ some (start, stop)
unfolding at_end
at_end-some start stop h b =
    let ordered : ltb stop start ≡ false = ground (arith, h) in
    rw ordered (check_uids_iff start stop h b)

-- Each range that an argument spells is what it is parsed as.
pub parse_range-some : (arg : Name) (r : ℕ × ℕ) → Spells arg r → parse_range arg ≡ some r
unfolding parse_range after_start after_dash
parse_range-some [] r (one_number text ends e valid) = absurd (text refl)
parse_range-some [] r (two_numbers rest text reads more ends e valid) = absurd (text refl)
parse_range-some (c ∷ cs) r (one_number text ends e valid) =
    let b = valid.1 in
    rw (ends, e) (check_uids_iff (number (c ∷ cs)) (number (c ∷ cs)) (omega arith) (rw e at b))
parse_range-some (c ∷ cs) r (two_numbers [] text reads more ends e valid) = absurd (more refl)
parse_range-some (c ∷ cs) r (two_numbers (d ∷ ds) text reads more ends e valid) =
    let h = valid.0 in
    let b = valid.1 in
    rw (reads, ends, e) (at_end-some (number (c ∷ cs)) (number (d ∷ ds)) (rw e at h) (rw e at b))
