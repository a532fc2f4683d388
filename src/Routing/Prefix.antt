-- ===== src/Routing/Prefix.antt =====
-- parsePrefix of server/NetdConstants.cpp: the text of an address and its prefix length.
pub mod Read
pub mod Complete
use system_netd.Prelude.{
  ℕ, ◌%◌, ◌^◌, Bool, Option, none, some, List, [], ◌∷◌, length, ltb, ◌==◌, if◌then◌else◌,
}
use system_netd.Prelude.Keys.{Name}
use system_netd.Prelude.Strtoul.{strtoul}
use system_netd.Errno.{einval, eafnosupport, enospc}
use system_netd.Routing.{Family, inet, inet6}

-- What `getaddrinfo` finds for a numeric address: its family, if it is one of the two, and its bytes.
pub record Address : Type 0 where
  pub family : Option Family
  pub bytes : List ℕ

pub record Prefix : Type 0 where
  pub family : Family
  pub bytes : List ℕ
  pub prefix_length : ℕ

pub data Parsed : Type 0 where
  refused : ℕ → Parsed
  parsed : Prefix → Parsed

-- `strchr(prefix, '/')`: the text before the slash and the text behind it.
unfoldable pub split_at_slash : Name → Option (Name × Name)
split_at_slash [] = none
split_at_slash (c ∷ cs) =
    if c == 47
    then some ([], cs)
    else elim (split_at_slash cs) [ none ↦ none | some (a, b) ↦ some (c ∷ a, b) ]

unfoldable pub max_length : Family → ℕ
max_length inet = 32
max_length inet6 = 128

unfoldable pub raw_length : Family → ℕ
raw_length inet = 4
raw_length inet6 = 16

unfoldable pub convert : ℕ → ℕ → Option Address → Parsed
unfolding max_length raw_length
convert size prefix_length none = refused einval
convert size prefix_length (some a) = elim a.family [
  | none ↦ refused eafnosupport
  | some f ↦
      if ltb (max_length f) prefix_length
      then refused einval
      else if ltb size (raw_length f)
      then refused enospc
      else parsed (record { family = f; bytes = a.bytes; prefix_length = prefix_length })
]

-- The length is an `unsigned`, and at most 255.
unfoldable pub parse_length : (Name → Option Address) → ℕ → Name → Name → Parsed
unfolding convert strtoul
parse_length get_addr_info size address text =
    let read = strtoul 10 text in
    let converted = convert size (read.0 % 2 ^ 32) (get_addr_info address) in
    elim read.1 [
      | _ ∷ _ ↦ refused einval
      | [] ↦ if ltb 255 (read.0 % 2 ^ 32) then refused einval else converted
    ]

unfoldable pub parse_prefix : (Name → Option Address) → ℕ → Name → Parsed
unfolding split_at_slash parse_length
parse_prefix get_addr_info size prefix = elim (split_at_slash prefix) [
  | none ↦ refused einval
  | some (address, []) ↦ refused einval
  | some (address, c ∷ cs) ↦ parse_length get_addr_info size address (c ∷ cs)
]
