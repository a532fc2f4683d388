-- ===== src/Routing/Ranked.antt =====
-- The priorities of the rules that netd asks for.
use system_netd.Prelude.{
  ℕ, ◌≡◌, ◌&&◌, inl, inr, Bool, true, false, ◌==◌, [], ◌∷◌, if◌then◌else◌, arith, refl, sym, subst,
  Any,
}
use system_netd.Prelude.Int.{ℤ, pos, negsuc, ltb_ℤ, ◌+ℤ◌}
use system_netd.Prelude.Keys.{Name}
use system_netd.Routing.{Rule, invalid_uid}
use system_netd.Routing.Rules.{
  vpn_output_to_local_rule, vpn_uid_range_rule, vpn_system_permission_rule, explicit_network_rule,
  local_network_rules, root_interface_rule, output_interface_rule, output_interface_rules,
  implicit_network_rule, vpn_local_exclusion_rule, vpn_fallthrough_rule, legacy_route_rules,
  initial_local_network_rules, last_rule,
}
use system_netd.Routing.UidRules.{
  uid_network_rule, uid_default_network_rule, uid_local_network_rule, uid_unreachable_rule,
  uid_default_unreachable_rule, reject_non_secure_rule, default_network_rule, tethering_rule,
}
use system_netd.Routing.Built.{
  InBounds, Built, vpn_output_to_local, vpn_uid_range, vpn_system_permission, explicit_network,
  local_network, output_interface, implicit_network, vpn_local_exclusion, vpn_fallthrough,
  legacy_route, initial_local_network, last, uid_network, uid_default_network, uid_local_network,
  uid_unreachable, uid_default_unreachable, reject_non_secure, default_network, tethering,
}

abbrev pub Ranked : Rule → Type 0
Ranked r = ltb_ℤ r.priority (pos 0) ≡ false

above : (n : ℕ) (sub : ℤ) → InBounds sub → ltb_ℤ (pos n +ℤ sub) (pos 0) ≡ false
above n (pos k) b = ground arith
above n (negsuc k) b = absurd (omega (arith, b.low))

in_list : (r x : Rule) → r ≡ x → Ranked x → Ranked r
in_list r x e h = subst Ranked (sym e) h

output-Ranked :
    (all : Bool) (interface : Name) (table permission start stop : ℕ) (sub : ℤ) (r : Rule)
    → InBounds sub
    → Any
        (λ x. r ≡ x)
        (let chosen = output_interface_rule interface table permission start stop sub in
          if all then root_interface_rule interface table ∷ chosen ∷ [] else chosen ∷ [])
    → Ranked r
unfolding root_interface_rule output_interface_rule
output-Ranked true interface table permission start stop sub r b (inl e) = in_list r _ e (refl)
output-Ranked true interface table permission start stop sub r b (inr (inl e)) =
    in_list r _ e (above 17000 sub b)
output-Ranked true interface table permission start stop sub r b (inr (inr e)) = absurd e
output-Ranked false interface table permission start stop sub r b (inl e) =
    in_list r _ e (above 17000 sub b)
output-Ranked false interface table permission start stop sub r b (inr e) = absurd e

-- No rule that netd may ask for has a negative priority.
pub Built-Ranked : (r : Rule) → Built r → Ranked r
unfolding vpn_output_to_local_rule vpn_uid_range_rule vpn_system_permission_rule
    explicit_network_rule local_network_rules output_interface_rules implicit_network_rule
    vpn_local_exclusion_rule vpn_fallthrough_rule legacy_route_rules initial_local_network_rules
    last_rule uid_network_rule uid_default_network_rule uid_local_network_rule uid_unreachable_rule
    uid_default_unreachable_rule reject_non_secure_rule default_network_rule tethering_rule
Built-Ranked r (vpn_output_to_local interface ne) = refl
Built-Ranked r (vpn_uid_range table start stop sub true true b) = above _ sub b
Built-Ranked r (vpn_uid_range table start stop sub true false b) = above _ sub b
Built-Ranked r (vpn_uid_range table start stop sub false true b) = above _ sub b
Built-Ranked r (vpn_uid_range table start stop sub false false b) = above _ sub b
Built-Ranked r (vpn_system_permission net_id table true true) = refl
Built-Ranked r (vpn_system_permission net_id table true false) = refl
Built-Ranked r (vpn_system_permission net_id table false true) = refl
Built-Ranked r (vpn_system_permission net_id table false false) = refl
Built-Ranked r (explicit_network net_id table permission start stop sub b) = above _ sub b
Built-Ranked r (local_network id table _ (inl e)) = in_list r _ e refl
Built-Ranked r (local_network id table _ (inr (inl e))) = in_list r _ e refl
Built-Ranked r (local_network id table _ (inr (inr e))) = absurd e
Built-Ranked r (output_interface interface table permission start stop sub _ b at) =
    output-Ranked ((start == invalid_uid) && (stop == invalid_uid)) interface table permission start
      stop sub r b at
Built-Ranked r (implicit_network net_id table) = refl
Built-Ranked r (vpn_local_exclusion table) = refl
Built-Ranked r (vpn_fallthrough net_id table permission) = refl
Built-Ranked r (legacy_route _ (inl e)) = in_list r _ e refl
Built-Ranked r (legacy_route _ (inr (inl e))) = in_list r _ e refl
Built-Ranked r (legacy_route _ (inr (inr (inl e)))) = in_list r _ e refl
Built-Ranked r (legacy_route _ (inr (inr (inr e)))) = absurd e
Built-Ranked r (initial_local_network id _ (inl e)) = in_list r _ e refl
Built-Ranked r (initial_local_network id _ (inr (inl e))) = in_list r _ e refl
Built-Ranked r (initial_local_network id _ (inr (inr e))) = absurd e
Built-Ranked r last = refl
Built-Ranked r (uid_network net_id table start stop sub true b) = above _ sub b
Built-Ranked r (uid_network net_id table start stop sub false b) = above _ sub b
Built-Ranked r (uid_default_network table start stop sub b) = above _ sub b
Built-Ranked r (uid_local_network table start stop) = refl
Built-Ranked r (uid_unreachable net_id start stop sub true b) = above _ sub b
Built-Ranked r (uid_unreachable net_id start stop sub false b) = above _ sub b
Built-Ranked r (uid_default_unreachable start stop sub b) = above _ sub b
Built-Ranked r (reject_non_secure start stop) = refl
Built-Ranked r (default_network table permission) = refl
Built-Ranked r (tethering table interface) = refl
