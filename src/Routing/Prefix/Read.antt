-- ===== src/Routing/Prefix/Read.antt =====
-- What parsePrefix accepts.
use system_netd.Prelude.{
  ℕ, ◌%◌, ◌^◌, ◌≤◌, ◌≡◌, ◌≢◌, inl, inr, Option, none, some, [], ◌∷◌, ◌++◌, ltb, if◌then◌else◌, refl,
  false, ap, ◌∙◌, arith, All, Bool-cases, Option-cases, ◌==◌,
}
use system_netd.Prelude.Keys.{Name}
use system_netd.Prelude.Strtoul.{strtoul}
use system_netd.Errno.{einval}
use system_netd.Routing.{Family, inet, inet6}
use system_netd.Routing.Prefix.{
  Address, Prefix, Parsed, refused, parsed, parse_prefix, parse_length, convert, split_at_slash,
  max_length, raw_length,
}

-- The text is an address, a slash and the digits of a length, with no other slash before it.
pub record IsSplit (text address digits : Name) : Type 0 where
  pub joined : text ≡ address ++ (47 ∷ digits)
  pub first : All (λ c. c ≢ 47) address
  pub some_digits : digits ≢ []
  pub only_digits : (strtoul 10 digits).1 ≡ []

-- A prefix of IPv4 has at most 32 bits, one of IPv6 at most 128. The number behind the slash is the
-- length, and `getaddrinfo` gave the family and the bytes for the text before the slash.
pub record IsPrefix (get_addr_info : Name → Option Address) (text : Name) (p : Prefix)
    : Type 0 where
  pub bounded4 : p.family ≡ inet → p.prefix_length ≤ 32
  pub bounded6 : p.family ≡ inet6 → p.prefix_length ≤ 128
  pub found :
      (address digits : Name) × IsSplit text address digits
      × (p.prefix_length ≡ (strtoul 10 digits).0 % 2 ^ 32)
      × (get_addr_info address ≡ some (record { family = some p.family; bytes = p.bytes }))

abbrev pub Reads : (Name → Option Address) → Name → Parsed → Type 0
Reads get_addr_info text (refused e) = e ≢ 0
Reads get_addr_info text (parsed p) = IsPrefix get_addr_info text p

address_eq :
    (a : Address) (f : Family) → a.family ≡ some f → a ≡ record { family = some f; bytes = a.bytes }
address_eq a f e = ground (arith, e)

max-length4 : (f : Family) (n : ℕ) → ltb (max_length f) n ≡ false → f ≡ inet → n ≤ 32
unfolding max_length
max-length4 inet n fits e = ground (arith, fits)
max-length4 inet6 n fits e = absurd (cc e)

max-length6 : (f : Family) (n : ℕ) → ltb (max_length f) n ≡ false → f ≡ inet6 → n ≤ 128
unfolding max_length
max-length6 inet n fits e = absurd (cc e)
max-length6 inet6 n fits e = ground (arith, fits)

-- The parts of a text, and that there is no slash in the first.
abbrev Splits : Name → Option (Name × Name) → Type 0
Splits text none = Unit
Splits text (some (a, b)) = (text ≡ a ++ (47 ∷ b)) × All (λ c. c ≢ 47) a

split_at_slash-Splits : (text : Name) → Splits text (split_at_slash text)
unfolding split_at_slash
split_at_slash-Splits [] = tt
split_at_slash-Splits (c ∷ cs) = elim (Bool-cases (c == 47)) [
  | inl slash ↦ let same : c ≡ 47 = ground (arith, slash) in rw slash (ap (λ x. x ∷ cs) same, tt)
  | inr other ↦
      rw other
        (later c cs (split_at_slash cs) (λ e. ground (arith, other, e)) (split_at_slash-Splits cs))
]
  where
    later :
        (c : ℕ) (cs : Name) (o : Option (Name × Name))
        → c ≢ 47
        → Splits cs o
        → Splits (c ∷ cs) (elim o [ none ↦ none | some (a, b) ↦ some (c ∷ a, b) ])
    later c cs none ne h = tt
    later c cs (some (a, b)) ne h = (ap (λ t. c ∷ t) h.0, (ne, h.1))

module _ (get_addr_info : Name → Option Address) where
  module _ (text address digits : Name) (split : IsSplit text address digits) where
    convert-Reads :
        (size : ℕ) (found : Option Address)
        → get_addr_info address ≡ found
        → Reads get_addr_info text (convert size ((strtoul 10 digits).0 % 2 ^ 32) found)
    unfolding convert
    convert-Reads size none e = omega arith
    convert-Reads size (some a) e =
        let n = (strtoul 10 digits).0 % 2 ^ 32 in
        elim (Option-cases a.family) [
          | inl none_found ↦ rw (none_found, convert) (omega arith)
          | inr (f, ef) ↦ elim (Bool-cases (ltb (max_length f) n)) [
            | inl long ↦ rw (ef, convert, long) (omega arith)
            | inr fits ↦ elim (Bool-cases (ltb size (raw_length f))) [
              | inl big ↦ rw (ef, convert, fits, big) (omega arith)
              | inr small ↦
                  rw (ef, convert, fits, small)
                    (record {
                      bounded4 = max-length4 f n fits;
                      bounded6 = max-length6 f n fits;
                      found =
                          (address, digits, split, refl, e ∙ ap (λ x. some x) (address_eq a f ef));
                    })
            ]
          ]
        ]

  length-Reads :
      (text address digits : Name) (size : ℕ)
      → text ≡ address ++ (47 ∷ digits)
      → All (λ c. c ≢ 47) address
      → digits ≢ []
      → Reads get_addr_info text (parse_length get_addr_info size address digits)
  unfolding parse_length
  length-Reads text address digits size joined first some_digits =
      by_rest (strtoul 10 digits).1 refl
    where
      by_rest :
          (rest : Name)
          → (strtoul 10 digits).1 ≡ rest
          → Reads get_addr_info text (elim rest [
            | _ ∷ _ ↦ refused einval
            | [] ↦
                if ltb 255 ((strtoul 10 digits).0 % 2 ^ 32)
                then refused einval
                else convert size ((strtoul 10 digits).0 % 2 ^ 32) (get_addr_info address)
          ])
      by_rest (c ∷ cs) e = omega arith
      by_rest [] e = elim (Bool-cases (ltb 255 ((strtoul 10 digits).0 % 2 ^ 32))) [
        | inl long ↦ rw long (omega arith)
        | inr fits ↦ rw fits (
            convert-Reads text address digits
              (record {
                joined = joined;
                first = first;
                some_digits = some_digits;
                only_digits = e;
              })
              size (get_addr_info address) refl)
      ]

  -- `parsePrefix` fails with an errno, or gives the prefix that the text spells: the length behind
  -- the slash, in bounds for the family, and the address before it.
  pub parse_prefix-Reads :
      (size : ℕ) (prefix : Name)
      → Reads get_addr_info prefix (parse_prefix get_addr_info size prefix)
  unfolding parse_prefix
  parse_prefix-Reads size prefix = by_split (split_at_slash prefix) (split_at_slash-Splits prefix)
    where
      by_split :
          (o : Option (Name × Name))
          → Splits prefix o
          → Reads get_addr_info prefix (elim o [
            | none ↦ refused einval
            | some (address, []) ↦ refused einval
            | some (address, c ∷ cs) ↦ parse_length get_addr_info size address (c ∷ cs)
          ])
      by_split none h = omega arith
      by_split (some (address, [])) h = omega arith
      by_split (some (address, c ∷ cs)) h =
          length-Reads prefix address (c ∷ cs) size h.0 h.1 (λ e. absurd (cc e))
