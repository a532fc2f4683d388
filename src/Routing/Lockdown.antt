-- ===== src/Routing/Lockdown.antt =====
-- The traffic of an app under a secure VPN, and the rules that netd may ask for.
pub mod Sockets
use system_netd.Prelude.{
  ℕ, ◌%◌, ◌≤◌, ◌≡◌, ◌≢◌, ◌⊎◌, inl, inr, Bool, true, false, ◌&&◌, none, some, [], ◌∷◌, ◌==◌,
  if◌then◌else◌, arith, refl, sym, ◌∙◌, subst, Any,
}
use system_netd.Prelude.Int.{ℤ, pos, negsuc, ◌≤ℤ◌, ◌+ℤ◌}
use system_netd.Prelude.Keys.{Name}
use system_netd.Fwmark.{empty_mark}
use system_netd.Routing.{Rule, invalid_uid}
use system_netd.Routing.Rules.{
  mark_rule, iif_loopback, vpn_output_to_local_rule, vpn_uid_range_rule, vpn_system_permission_rule,
  root_interface_rule, output_interface_rule, explicit_network_rule, local_network_rules,
  output_interface_rules, implicit_network_rule, vpn_local_exclusion_rule, vpn_fallthrough_rule,
  legacy_route_rules, initial_local_network_rules, last_rule,
}
use system_netd.Routing.UidRules.{
  uid_network_rule, uid_default_network_rule, uid_local_network_rule, uid_unreachable_rule,
  uid_default_unreachable_rule, reject_non_secure_rule, default_network_rule, tethering_rule,
}
use system_netd.RouteTables.{route_table_local_network, route_table_legacy_system}
use system_netd.Routing.Priorities.{
  rule_priority_vpn_override_system, rule_priority_vpn_override_oif,
  rule_priority_vpn_output_to_local, rule_priority_secure_vpn,
}
use system_netd.Routing.Match.{Packet, matches, uid_in}
use system_netd.Routing.Built.{
  InBounds, Built, vpn_output_to_local, vpn_uid_range, vpn_system_permission, explicit_network,
  local_network, output_interface, implicit_network, vpn_local_exclusion, vpn_fallthrough,
  legacy_route, initial_local_network, last, uid_network, uid_default_network, uid_local_network,
  uid_unreachable, uid_default_unreachable, reject_non_secure, default_network, tethering,
}
use system_netd.Routing.Matched.{uid_of_match, iif_of_match, system_of_match, range-matches}

-- The rule is one of a secure VPN for a range with the packet's UID.
pub data OfSecureVpn (p : Packet) : Rule → Type 0 where
  of_range :
      (table start stop : ℕ) (sub : ℤ) (exclude : Bool)
      → (start ≡ invalid_uid) ⊎ (uid_in start stop p.uid ≡ true)
      → OfSecureVpn p (vpn_uid_range_rule table start stop sub true exclude)

-- A rule above the priority of rules that keep apps off VPNs.
abbrev Above : Rule → Type 0
Above r = pos 14000 ≤ℤ r.priority

-- A sub-priority adds to the number.
raised : (n : ℕ) (sub : ℤ) → 14000 ≤ n → InBounds sub → pos 14000 ≤ℤ (pos n +ℤ sub)
raised n (pos k) h b = ground arith
raised n (negsuc k) h b = absurd (omega (arith, b))

-- The rules of a list of two or three.
one_leads : (r x : Rule) → r ≡ x → Above x → Above r
one_leads r x e h = subst Above (sym e) h

module _ (p : Packet) (local : p.iif ≡ iif_loopback) (app : p.uid ≢ 0)
    (ordinary : p.mark.permission % 4 ≢ 3) where
  -- No packet of an app matches the rule for root.
  root-Above :
      (interface : Name) (table : ℕ) → matches (root_interface_rule interface table) p ≡ true → ⊥
  unfolding root_interface_rule
  root-Above interface table h =
      elim (uid_of_match p rule_priority_vpn_override_oif table empty_mark empty_mark
        (some iif_loopback) (some interface) 0 0 h) [
          | inl e ↦ absurd (omega (arith, e))
          | inr e ↦ app (ground (arith, e))
        ]

  chosen-Above :
      (all : Bool) (interface : Name) (table permission start stop : ℕ) (sub : ℤ) (r : Rule)
      → InBounds sub
      → Any
          (λ x. r ≡ x)
          (let chosen = output_interface_rule interface table permission start stop sub in
            if all then root_interface_rule interface table ∷ chosen ∷ [] else chosen ∷ [])
      → matches r p ≡ true
      → Above r
  unfolding output_interface_rule
  chosen-Above true interface table permission start stop sub r b (inl e) h =
      absurd (root-Above interface table (subst (λ x. matches x p ≡ true) e h))
  chosen-Above true interface table permission start stop sub r b (inr (inl e)) h =
      one_leads r _ e (raised 17000 sub (omega arith) b)
  chosen-Above true interface table permission start stop sub r b (inr (inr e)) h = absurd e
  chosen-Above false interface table permission start stop sub r b (inl e) h =
      one_leads r _ e (raised 17000 sub (omega arith) b)
  chosen-Above false interface table permission start stop sub r b (inr e) h = absurd e

  output-Above :
      (interface : Name) (table permission start stop : ℕ) (sub : ℤ) (r : Rule)
      → InBounds sub
      → Any (λ x. r ≡ x) (output_interface_rules interface table permission start stop sub)
      → matches r p ≡ true
      → Above r
  unfolding output_interface_rules
  output-Above interface table permission start stop sub =
      chosen-Above ((start == invalid_uid) && (stop == invalid_uid)) interface table permission
        start stop sub

  legacy-Above : (r : Rule) → Any (λ x. r ≡ x) legacy_route_rules → matches r p ≡ true → Above r
  unfolding legacy_route_rules empty_mark mark_rule
  legacy-Above r (inl e) h = one_leads r _ e (omega arith)
  legacy-Above r (inr (inl e)) h = one_leads r _ e (omega arith)
  legacy-Above r (inr (inr (inl e))) h = absurd (
      ordinary (
        system_of_match p rule_priority_vpn_override_system route_table_legacy_system
          (record empty_mark { permission = 3 })
          (record empty_mark { explicitly_selected = true; permission = 3 }) none none invalid_uid
          invalid_uid (subst (λ x. matches x p ≡ true) e h) refl refl))
  legacy-Above r (inr (inr (inr e))) h = absurd e

  leads : (r : Rule) → Built r → matches r p ≡ true → OfSecureVpn p r ⊎ Above r
  unfolding vpn_output_to_local_rule vpn_uid_range_rule vpn_system_permission_rule
      explicit_network_rule local_network_rules implicit_network_rule vpn_local_exclusion_rule
      vpn_fallthrough_rule initial_local_network_rules last_rule uid_network_rule
      uid_default_network_rule uid_local_network_rule uid_unreachable_rule
      uid_default_unreachable_rule reject_non_secure_rule default_network_rule tethering_rule
  leads r (vpn_output_to_local interface ne) h = absurd (
      ne (
        iif_of_match p rule_priority_vpn_output_to_local route_table_local_network empty_mark
          empty_mark (some interface) none invalid_uid invalid_uid h interface refl
        ∙ local))
  leads r (vpn_uid_range table start stop sub true exclude b) h = inl (
      of_range table start stop sub exclude (
        uid_of_match p (rule_priority_secure_vpn +ℤ sub) table empty_mark
          (record empty_mark { protected_from_vpn = true }) (some iif_loopback) none start stop h))
  leads r (vpn_uid_range table start stop sub false true b) h =
      inr (raised 27000 sub (omega arith) b)
  leads r (vpn_uid_range table start stop sub false false b) h =
      inr (raised 24000 sub (omega arith) b)
  leads r (vpn_system_permission net_id table true exclude) h = absurd (
      ordinary (
        system_of_match p rule_priority_secure_vpn table
          (record empty_mark { net_id = net_id; permission = 3 })
          (record empty_mark { net_id = 0xffff; permission = 3 }) none none invalid_uid invalid_uid
          h refl refl))
  leads r (vpn_system_permission net_id table false true) h = inr (omega arith)
  leads r (vpn_system_permission net_id table false false) h = inr (omega arith)
  leads r (explicit_network net_id table permission start stop sub b) h =
      inr (raised 16000 sub (omega arith) b)
  leads r (local_network id table _ (inl e)) h = inr (one_leads r _ e (omega arith))
  leads r (local_network id table _ (inr (inl e))) h = inr (one_leads r _ e (omega arith))
  leads r (local_network id table _ (inr (inr e))) h = absurd e
  leads r (output_interface interface table permission start stop sub _ b at) h =
      inr (output-Above interface table permission start stop sub r b at h)
  leads r (implicit_network net_id table) h = inr (omega arith)
  leads r (vpn_local_exclusion table) h = inr (omega arith)
  leads r (vpn_fallthrough net_id table permission) h = inr (omega arith)
  leads r (legacy_route _ at) h = inr (legacy-Above r at h)
  leads r (initial_local_network id _ (inl e)) h = inr (one_leads r _ e (omega arith))
  leads r (initial_local_network id _ (inr (inl e))) h = inr (one_leads r _ e (omega arith))
  leads r (initial_local_network id _ (inr (inr e))) h = absurd e
  leads r last h = inr (omega arith)
  leads r (uid_network net_id table start stop sub true b) h =
      inr (raised 15000 sub (omega arith) b)
  leads r (uid_network net_id table start stop sub false b) h =
      inr (raised 22000 sub (omega arith) b)
  leads r (uid_default_network table start stop sub b) h = inr (raised 29000 sub (omega arith) b)
  leads r (uid_local_network table start stop) h = inr (omega arith)
  leads r (uid_unreachable net_id start stop sub true b) h = inr (raised 15000 sub (omega arith) b)
  leads r (uid_unreachable net_id start stop sub false b) h = inr (raised 22000 sub (omega arith) b)
  leads r (uid_default_unreachable start stop sub b) h = inr (raised 30000 sub (omega arith) b)
  leads r (reject_non_secure start stop) h = inr (omega arith)
  leads r (default_network table permission) h = inr (omega arith)
  leads r (tethering table interface) h = inr (omega arith)

under_14000 :
    (r : Rule) (table start stop : ℕ) (sub : ℤ) (exclude : Bool)
    → InBounds sub
    → r.priority ≤ℤ (vpn_uid_range_rule table start stop sub true exclude).priority
    → Above r
    → ⊥
unfolding vpn_uid_range_rule
under_14000 r table start stop (pos k) exclude b below above = ground (arith, b, below, above)
under_14000 r table start stop (negsuc k) exclude b below above = absurd (omega (arith, b))

-- A packet of an app, not root and without PERMISSION_SYSTEM in its mark, that is not protected from
-- VPNs and whose UID is in a range of a secure VPN matches the rule of that range; and a rule that
-- netd may ask for, matches it and has no higher number is such a rule of a secure VPN.
pub secure_vpn-Captures :
    (p : Packet) (table start stop : ℕ) (sub : ℤ) (exclude : Bool) (r : Rule)
    → InBounds sub
    → p.iif ≡ iif_loopback
    → p.uid ≢ 0
    → p.mark.permission % 4 ≢ 3
    → p.mark.protected_from_vpn ≡ false
    → uid_in start stop p.uid ≡ true
    → Built r
    → matches r p ≡ true
    → r.priority ≤ℤ (vpn_uid_range_rule table start stop sub true exclude).priority
    → (matches (vpn_uid_range_rule table start stop sub true exclude) p ≡ true) × OfSecureVpn p r
secure_vpn-Captures p table start stop sub exclude r b local app ordinary free within built h
      below =
    (
      range-matches p table start stop sub exclude local free within,
      elim (leads p local app ordinary r built h) [
        | inl leading ↦ leading
        | inr above ↦ absurd (under_14000 r table start stop sub exclude b below above)
      ],
    )
