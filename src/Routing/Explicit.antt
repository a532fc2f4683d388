-- ===== src/Routing/Explicit.antt =====
-- Which packets the rule for an explicitly chosen network matches.
use system_netd.Prelude.{
  ℕ, zero, suc, ◌%◌, ◌^◌, ◌<◌, ◌≡◌, ◌↔◌, true, ==_iff, bit_and, arith, refl, ap, sym, ◌∙◌,
}
use system_netd.Prelude.Int.{ℤ}
use system_netd.Prelude.Keys.{names-equal_iff}
use system_netd.Prelude.Bits.{bit_and_ones, bit_and-zero}
use system_netd.Fwmark.{Fwmark, empty_mark, has_permission}
use system_netd.Fwmark.And.{and_mark}
use system_netd.Routing.{invalid_uid}
use system_netd.Routing.Rules.{explicit_network_rule, iif_loopback}
use system_netd.Routing.Match.{Packet, matches, marks_agree}

-- The mark of the rule, and its mask.
abbrev chosen : ℕ → ℕ → Fwmark
chosen net_id permission = record empty_mark {
  net_id = net_id;
  explicitly_selected = true;
  permission = permission;
}

bit_and_self : (a : ℕ) → a < 4 → bit_and a a ≡ a
bit_and_self zero h = refl
bit_and_self (suc zero) h = refl
bit_and_self (suc (suc zero)) h = refl
bit_and_self (suc (suc (suc zero))) h = refl
bit_and_self (suc (suc (suc (suc a)))) h = absurd (omega arith)

chosen_fields :
    (m : Fwmark) (net_id permission : ℕ)
    → (and_mark m (chosen 0xffff permission)
        ≡ and_mark (chosen net_id permission) (chosen 0xffff permission))
      ↔ ((m.net_id % 2 ^ 16 ≡ net_id % 2 ^ 16)
          × (m.explicitly_selected ≡ true)
          × (has_permission (m.permission % 4) (permission % 4) ≡ true))
unfolding and_mark empty_mark has_permission
chosen_fields m net_id permission =
    let a = bit_and_ones 16 (m.net_id % 2 ^ 16) (omega arith) in
    let b = bit_and_ones 16 (net_id % 2 ^ 16) (omega arith) in
    let c = bit_and_self (permission % 4) (omega arith) in
    let d = bit_and-zero (m.reserved % 2 ^ 10) in
    (
      λ e. (
        sym a ∙ ap (λ x. x.net_id) e ∙ b,
        ground (arith, ap (λ x. x.explicitly_selected) e),
        (==_iff _ _).1 (ap (λ x. x.permission) e ∙ c),
      ),
      λ h. ground (arith, a, b, c, d, h.0, h.1, (==_iff _ _).0 h.2),
    )

-- The rule for an explicitly chosen network, without a range of UIDs, matches a packet from a local
-- socket exactly if the mark has the netId, the explicit bit, and the permission of the network.
pub explicit_network-Matches :
    (p : Packet) (net_id table permission : ℕ) (sub : ℤ)
    → (matches (explicit_network_rule net_id table permission invalid_uid invalid_uid sub) p ≡ true)
      ↔ ((p.iif ≡ iif_loopback)
          × (p.mark.net_id % 2 ^ 16 ≡ net_id % 2 ^ 16)
          × (p.mark.explicitly_selected ≡ true)
          × (has_permission (p.mark.permission % 4) (permission % 4) ≡ true))
unfolding matches explicit_network_rule
explicit_network-Matches p net_id table permission sub =
    let agree = marks_agree p.mark (chosen net_id permission) (chosen 0xffff permission) in
    let fields = chosen_fields p.mark net_id permission in
    let name = names-equal_iff iif_loopback p.iif in
    (
      λ e.
          let f = fields.0 (agree.0 (ground (arith, e))) in
          (sym (name.0 (ground (arith, e))), f.0, f.1, f.2),
      λ h. ground (arith, agree.1 (fields.1 (h.1, h.2, h.3)), name.1 (sym h.0)),
    )
