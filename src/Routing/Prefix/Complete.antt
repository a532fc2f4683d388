-- ===== src/Routing/Prefix/Complete.antt =====
-- That parsePrefix accepts each text that spells a prefix.
use system_netd.Prelude.{
  ℕ, ◌%◌, ◌^◌, ◌≤◌, ◌≡◌, ◌≢◌, Option, some, List, [], ◌∷◌, ◌++◌, ltb, refl, false, ap, ◌∙◌, arith,
  All, ◌==◌,
}
use system_netd.Prelude.Keys.{Name}
use system_netd.Prelude.Strtoul.{strtoul}
use system_netd.Routing.{Family, inet, inet6}
use system_netd.Routing.Prefix.{
  Address, Prefix, parsed, parse_prefix, parse_length, convert, split_at_slash, max_length,
  raw_length,
}
use system_netd.Routing.Prefix.Read.{IsSplit, IsPrefix}

split_at_slash-append :
    (address digits : Name)
    → All (λ c. c ≢ 47) address
    → split_at_slash (address ++ (47 ∷ digits)) ≡ some (address, digits)
unfolding split_at_slash
split_at_slash-append [] digits h = refl
split_at_slash-append (c ∷ cs) digits h =
    let other : (c == 47) ≡ false = ground (arith, h.0) in
    rw (other, split_at_slash-append cs digits h.1) refl

convert-parsed :
    (f : Family) (bytes : List ℕ) (n : ℕ)
    → (f ≡ inet → n ≤ 32)
    → (f ≡ inet6 → n ≤ 128)
    → convert 16 n (some (record { family = some f; bytes = bytes }))
      ≡ parsed (record { family = f; bytes = bytes; prefix_length = n })
unfolding convert max_length raw_length
convert-parsed inet bytes n h4 h6 =
    let fits : ltb 32 n ≡ false = ground (arith, h4 refl) in rw fits refl
convert-parsed inet6 bytes n h4 h6 =
    let fits : ltb 128 n ≡ false = ground (arith, h6 refl) in rw fits refl

at_most_128 : (f : Family) (n : ℕ) → (f ≡ inet → n ≤ 32) → (f ≡ inet6 → n ≤ 128) → n ≤ 128
at_most_128 inet n h4 h6 = omega (arith, h4 refl)
at_most_128 inet6 n h4 h6 = h6 refl

module _ (get_addr_info : Name → Option Address) (text : Name) (p : Prefix) where
  parse_length-parsed :
      (address digits : Name)
      → (strtoul 10 digits).1 ≡ []
      → p.prefix_length ≡ (strtoul 10 digits).0 % 2 ^ 32
      → get_addr_info address ≡ some (record { family = some p.family; bytes = p.bytes })
      → (p.family ≡ inet → p.prefix_length ≤ 32)
      → (p.family ≡ inet6 → p.prefix_length ≤ 128)
      → parse_length get_addr_info 16 address digits ≡ parsed p
  unfolding parse_length
  parse_length-parsed address digits only same_length found h4 h6 =
      let b = at_most_128 p.family p.prefix_length h4 h6 in
      let short : ltb 255 p.prefix_length ≡ false = ground (arith, b) in
      rw (parse_length, only, ← same_length, short, found)
        (convert-parsed p.family p.bytes p.prefix_length h4 h6)

  -- Room for 16 bytes is enough for every prefix.
  pub parse_prefix-parsed :
      IsPrefix get_addr_info text p → parse_prefix get_addr_info 16 text ≡ parsed p
  unfolding parse_prefix
  parse_prefix-parsed h = by_parts h.found.0 h.found.1 h.found.2 h.found.3 h.found.4
    where
      by_parts :
          (address digits : Name)
          → IsSplit text address digits
          → p.prefix_length ≡ (strtoul 10 digits).0 % 2 ^ 32
          → get_addr_info address ≡ some (record { family = some p.family; bytes = p.bytes })
          → parse_prefix get_addr_info 16 text ≡ parsed p
      by_parts address [] split same_length found = absurd (split.some_digits refl)
      by_parts address (c ∷ cs) split same_length found =
          let parts : split_at_slash text ≡ some (address, c ∷ cs) =
            ap split_at_slash split.joined ∙ split_at_slash-append address (c ∷ cs) split.first in
          rw (parse_prefix, parts)
            (parse_length-parsed address (c ∷ cs) split.only_digits same_length found h.bounded4
              h.bounded6)
