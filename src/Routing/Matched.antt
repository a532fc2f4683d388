-- ===== src/Routing/Matched.antt =====
-- What a packet has that matches a rule, and the packets that the rule of a secure VPN matches.
use system_netd.Prelude.{
  ℕ, ◌%◌, ◌^◌, ◌≡◌, ◌⊎◌, inl, inr, Bool, true, false, Option, some, ◌==◌, ==_iff, bit_and, arith,
  refl, ap, sym, ◌∙◌, Bool-cases,
}
use system_netd.Prelude.Int.{ℤ}
use system_netd.Prelude.Keys.{Name, names_equal, names-equal_iff}
use system_netd.Prelude.Bits.{bit_and_ones, bit_and-zero}
use system_netd.Fwmark.{Fwmark, empty_mark}
use system_netd.Fwmark.And.{and_mark}
use system_netd.Routing.{invalid_uid}
use system_netd.Routing.Rules.{table_rule, iif_loopback, vpn_uid_range_rule}
use system_netd.Routing.Match.{Packet, matches, uid_in, marks_agree}

module _ (p : Packet) (priority : ℤ) (table : ℕ) (f m : Fwmark) (iif oif : Option Name)
    (start stop : ℕ) (h : matches (table_rule priority table f m iif oif start stop) p ≡ true) where
  pub mark_of_match : and_mark p.mark m ≡ and_mark f m
  unfolding matches table_rule
  mark_of_match = (marks_agree p.mark f m).0 (ground (arith, h))

  pub uid_of_match : (start ≡ invalid_uid) ⊎ (uid_in start stop p.uid ≡ true)
  unfolding matches table_rule
  uid_of_match = elim (Bool-cases (start == invalid_uid)) [
    | inl all ↦ inl ((==_iff start invalid_uid).0 all)
    | inr some_uids ↦ inr (ground (arith, h, some_uids))
  ]

  pub iif_of_match : (name : Name) → iif ≡ some name → name ≡ p.iif
  unfolding matches table_rule
  iif_of_match name e = (names-equal_iff name p.iif).0 (ground (arith, h, e))

  pub system_of_match : f.permission % 4 ≡ 3 → m.permission % 4 ≡ 3 → p.mark.permission % 4 ≡ 3
  unfolding and_mark
  system_of_match ef em =
      let same = ap (λ x. x.permission) mark_of_match in
      let same : bit_and (p.mark.permission % 4) 3 ≡ bit_and 3 3 = rw (ef, em) at same in
      sym (bit_and_ones 2 (p.mark.permission % 4) (omega arith)) ∙ same

names_same : (n : Name) → names_equal n n ≡ true
names_same n = (names-equal_iff n n).1 refl

unprotected :
    (m : Fwmark)
    → m.protected_from_vpn ≡ false
    → and_mark m (record empty_mark { protected_from_vpn = true })
      ≡ and_mark empty_mark (record empty_mark { protected_from_vpn = true })
unfolding and_mark empty_mark
unprotected m h = ground (
  arith,
  h,
  bit_and-zero (m.net_id % 2 ^ 16),
  bit_and-zero (m.permission % 4),
  bit_and-zero (m.reserved % 2 ^ 10),
)

pub range-matches :
    (p : Packet) (table start stop : ℕ) (sub : ℤ) (exclude : Bool)
    → p.iif ≡ iif_loopback
    → p.mark.protected_from_vpn ≡ false
    → uid_in start stop p.uid ≡ true
    → matches (vpn_uid_range_rule table start stop sub true exclude) p ≡ true
unfolding matches vpn_uid_range_rule
range-matches p table start stop sub exclude local free within =
    let mark =
      (marks_agree p.mark empty_mark (record empty_mark { protected_from_vpn = true })).1
        (unprotected p.mark free) in
    rw (mark, local, names_same iif_loopback) (ground (arith, within))
