-- ===== src/Routing/Covered.antt =====
-- No rule of netd has a bit in its mark that its mask leaves out, which `modifyIpRule` refuses.
use system_netd.Prelude.{
  ℕ, zero, suc, ◌-◌, ◌%◌, ◌^◌, ◌<◌, ◌≡◌, ◌⊎◌, inl, inr, Bool, true, false, ◌&&◌, not, List, [], ◌∷◌,
  ◌==◌, if◌then◌else◌, bit_and, arith, refl, sym, subst, Any, All, ◌≢◌,
}
use system_netd.Prelude.Int.{ℤ}
use system_netd.Prelude.Keys.{Name}
use system_netd.Prelude.Bits.{bit_and-zero, zero-bit_and}
use system_netd.Fwmark.{Fwmark, empty_mark, int_value}
use system_netd.Fwmark.And.{and_mark, complement, bit_and-int_value, int_value-complement}
use system_netd.Errno.{erange}
use system_netd.Routing.{Rule, invalid_uid, check_rule}
use system_netd.Routing.Ranked.{Built-Ranked}
use system_netd.Routing.Rules.{
  vpn_output_to_local_rule, vpn_uid_range_rule, vpn_system_permission_rule, explicit_network_rule,
  local_network_rules, root_interface_rule, output_interface_rule, output_interface_rules,
  implicit_network_rule, vpn_local_exclusion_rule, vpn_fallthrough_rule, legacy_route_rules,
  initial_local_network_rules, last_rule, iif_loopback,
}
use system_netd.Routing.UidRules.{
  uid_network_rule, uid_default_network_rule, uid_local_network_rule, uid_unreachable_rule,
  uid_default_unreachable_rule, reject_non_secure_rule, default_network_rule, tethering_rule,
}
use system_netd.Routing.Built.{
  Built, vpn_output_to_local, vpn_uid_range, vpn_system_permission, explicit_network, local_network,
  output_interface, implicit_network, vpn_local_exclusion, vpn_fallthrough, legacy_route,
  initial_local_network, last, uid_network, uid_default_network, uid_local_network, uid_unreachable,
  uid_default_unreachable, reject_non_secure, default_network, tethering,
}
use system_netd.Platform.{UidRangeMap}
use system_netd.Routing.Plans.{Item, rule, incoming_mark, virtual_plan, physical_plan}
use system_netd.Routing.Planned.{IsBuilt, Bounded, virtual-IsBuilt, physical-IsBuilt}

abbrev pub Covered : Rule → Type 0
Covered r = bit_and r.fwmark (2 ^ 32 - 1 - r.mask) ≡ 0

bit_and_rest : (a : ℕ) → a < 4 → bit_and a (3 - a) ≡ 0
bit_and_rest zero h = refl
bit_and_rest (suc zero) h = refl
bit_and_rest (suc (suc zero)) h = refl
bit_and_rest (suc (suc (suc zero))) h = refl
bit_and_rest (suc (suc (suc (suc a)))) h = absurd (omega arith)

net_id_covered : (a b : ℕ) → (a ≡ 0) ⊎ (b ≡ 65535) → bit_and (a % 2 ^ 16) (65535 - b % 2 ^ 16) ≡ 0
net_id_covered a b (inl e) = rw e (zero-bit_and (65535 - b % 2 ^ 16))
net_id_covered a b (inr e) = rw e (bit_and-zero (a % 2 ^ 16))

module _ (f m : Fwmark) (n : (f.net_id ≡ 0) ⊎ (m.net_id ≡ 65535))
    (e : (f.explicitly_selected && not m.explicitly_selected) ≡ false)
    (p : (f.protected_from_vpn && not m.protected_from_vpn) ≡ false)
    (q : f.permission ≡ m.permission) (u : f.uid_billing_done ≡ false) (r : f.reserved ≡ 0)
    (c : f.ingress_cpu_wakeup ≡ false) where
  none_left : int_value (and_mark f (complement m)) ≡ 0
  unfolding and_mark complement int_value
  none_left =
      let a = net_id_covered f.net_id m.net_id n in
      let b : bit_and (f.permission % 4) (3 - m.permission % 4) ≡ 0 =
        rw (← q) (bit_and_rest (f.permission % 4) (omega arith)) in
      let d : bit_and (f.reserved % 2 ^ 10) (1023 - m.reserved % 2 ^ 10) ≡ 0 =
        rw r (zero-bit_and (1023 - m.reserved % 2 ^ 10)) in
      ground (arith, a, b, d, e, p, u, c)

  -- A mark of netd has no billing bit, reserved bits or wake-up bit.
  covered : bit_and (int_value f) (2 ^ 32 - 1 - int_value m) ≡ 0
  covered = rw (int_value-complement m, bit_and-int_value f (complement m)) none_left

all_in_list : (r x : Rule) → r ≡ x → Covered x → Covered r
all_in_list r x e h = subst Covered (sym e) h

output_in_mask :
    (all : Bool) (interface : Name) (table permission start stop : ℕ) (sub : ℤ) (r : Rule)
    → Any
        (λ x. r ≡ x)
        (let chosen = output_interface_rule interface table permission start stop sub in
          if all then root_interface_rule interface table ∷ chosen ∷ [] else chosen ∷ [])
    → Covered r
unfolding root_interface_rule output_interface_rule
output_in_mask true interface table permission start stop sub r (inl e) =
    all_in_list r _ e (covered _ _ (inl refl) refl refl refl refl refl refl)
output_in_mask true interface table permission start stop sub r (inr (inl e)) =
    all_in_list r _ e (covered _ _ (inl refl) refl refl refl refl refl refl)
output_in_mask true interface table permission start stop sub r (inr (inr e)) = absurd e
output_in_mask false interface table permission start stop sub r (inl e) =
    all_in_list r _ e (covered _ _ (inl refl) refl refl refl refl refl refl)
output_in_mask false interface table permission start stop sub r (inr e) = absurd e

-- Each rule that netd may ask for has no bit in its mark that is not in its mask.
pub Built-Covered : (r : Rule) → Built r → Covered r
unfolding vpn_output_to_local_rule vpn_uid_range_rule vpn_system_permission_rule
    explicit_network_rule local_network_rules output_interface_rules implicit_network_rule
    vpn_local_exclusion_rule vpn_fallthrough_rule legacy_route_rules initial_local_network_rules
    last_rule uid_network_rule uid_default_network_rule uid_local_network_rule uid_unreachable_rule
    uid_default_unreachable_rule reject_non_secure_rule default_network_rule tethering_rule
    empty_mark
Built-Covered r (vpn_output_to_local interface ne) =
    covered _ _ (inl refl) refl refl refl refl refl refl
Built-Covered r (vpn_uid_range table start stop sub true exclude b) =
    covered _ _ (inl refl) refl refl refl refl refl refl
Built-Covered r (vpn_uid_range table start stop sub false exclude b) =
    covered _ _ (inl refl) refl refl refl refl refl refl
Built-Covered r (vpn_system_permission net_id table secure exclude) =
    covered _ _ (inr refl) refl refl refl refl refl refl
Built-Covered r (explicit_network net_id table permission start stop sub b) =
    covered _ _ (inr refl) refl refl refl refl refl refl
Built-Covered r (local_network id table _ (inl e)) =
    all_in_list r _ e (covered _ _ (inl refl) refl refl refl refl refl refl)
Built-Covered r (local_network id table _ (inr (inl e))) =
    all_in_list r _ e (covered _ _ (inr refl) refl refl refl refl refl refl)
Built-Covered r (local_network id table _ (inr (inr e))) = absurd e
Built-Covered r (output_interface interface table permission start stop sub _ b at) =
    output_in_mask ((start == invalid_uid) && (stop == invalid_uid)) interface table permission
      start stop sub r at
Built-Covered r (implicit_network net_id table) =
    covered _ _ (inr refl) refl refl refl refl refl refl
Built-Covered r (vpn_local_exclusion table) = covered _ _ (inl refl) refl refl refl refl refl refl
Built-Covered r (vpn_fallthrough net_id table permission) =
    covered _ _ (inr refl) refl refl refl refl refl refl
Built-Covered r (legacy_route _ (inl e)) =
    all_in_list r _ e (covered _ _ (inl refl) refl refl refl refl refl refl)
Built-Covered r (legacy_route _ (inr (inl e))) =
    all_in_list r _ e (covered _ _ (inl refl) refl refl refl refl refl refl)
Built-Covered r (legacy_route _ (inr (inr (inl e)))) =
    all_in_list r _ e (covered _ _ (inl refl) refl refl refl refl refl refl)
Built-Covered r (legacy_route _ (inr (inr (inr e)))) = absurd e
Built-Covered r (initial_local_network id _ (inl e)) =
    all_in_list r _ e (covered _ _ (inr refl) refl refl refl refl refl refl)
Built-Covered r (initial_local_network id _ (inr (inl e))) =
    all_in_list r _ e (covered _ _ (inl refl) refl refl refl refl refl refl)
Built-Covered r (initial_local_network id _ (inr (inr e))) = absurd e
Built-Covered r last = covered _ _ (inl refl) refl refl refl refl refl refl
Built-Covered r (uid_network net_id table start stop sub true b) =
    covered _ _ (inr refl) refl refl refl refl refl refl
Built-Covered r (uid_network net_id table start stop sub false b) =
    covered _ _ (inr refl) refl refl refl refl refl refl
Built-Covered r (uid_default_network table start stop sub b) =
    covered _ _ (inl refl) refl refl refl refl refl refl
Built-Covered r (uid_local_network table start stop) =
    covered _ _ (inl refl) refl refl refl refl refl refl
Built-Covered r (uid_unreachable net_id start stop sub true b) =
    covered _ _ (inr refl) refl refl refl refl refl refl
Built-Covered r (uid_unreachable net_id start stop sub false b) =
    covered _ _ (inr refl) refl refl refl refl refl refl
Built-Covered r (uid_default_unreachable start stop sub b) =
    covered _ _ (inl refl) refl refl refl refl refl refl
Built-Covered r (reject_non_secure start stop) =
    covered _ _ (inl refl) refl refl refl refl refl refl
Built-Covered r (default_network table permission) =
    covered _ _ (inl refl) refl refl refl refl refl refl
Built-Covered r (tethering table interface) = covered _ _ (inl refl) refl refl refl refl refl refl

-- The mark of a rule, and what `modifyIpRule` checks: it never refuses the rule with ERANGE.
abbrev pub CoveredItem : Item → Type 0
CoveredItem (rule r) = Covered r × ((add : Bool) → check_rule add r ≢ erange)
CoveredItem (incoming_mark net_id interface permission) = Unit

Built-InRange : (r : Rule) → Built r → (add : Bool) → check_rule add r ≢ erange
unfolding check_rule
Built-InRange r h add =
    let ranked = Built-Ranked r h in
    let inside = Built-Covered r h in ground (arith, ranked, inside)

items_covered : (items : List Item) → All IsBuilt items → All CoveredItem items
items_covered [] h = tt
items_covered (rule r ∷ items) h =
    ((Built-Covered r h.0, Built-InRange r h.0), items_covered items h.1)
items_covered (incoming_mark net_id interface permission ∷ items) h = (tt, items_covered items h.1)

-- The rules of a virtual and of a physical network, with sub-priorities in bounds and, for the
-- virtual network, an interface other than the loopback: no rule has a bit in its mark that its mask
-- leaves out, and the checks of `modifyIpRule` refuse none with ERANGE, the error for such a mark and
-- for a negative priority.
pub plans-Covered :
    (local_net_id net_id : ℕ) (interface : Name) (uid_range_map : UidRangeMap) (permission : ℕ)
    (secure exclude whole local : Bool) (table local_table : ℕ)
    → interface ≢ iif_loopback
    → Bounded uid_range_map
    → All CoveredItem (virtual_plan net_id interface uid_range_map secure whole exclude table)
      × All CoveredItem (
          physical_plan local_net_id net_id interface uid_range_map permission whole local table
            local_table)
plans-Covered local_net_id net_id interface uid_range_map permission secure exclude whole local
      table local_table ne b =
    (
      items_covered _
          (virtual-IsBuilt net_id interface uid_range_map secure whole exclude table ne b),
      items_covered _ (
          physical-IsBuilt local_net_id net_id interface uid_range_map permission whole local table
            local_table b),
    )
