-- ===== src/Routing/Built.antt =====
-- The rules that netd may ask the kernel for: one constructor for each function that builds one.
use system_netd.Prelude.{ℕ, ◌≡◌, ◌≢◌, Bool, Any}
use system_netd.Prelude.Int.{ℤ, pos, ◌≤ℤ◌}
use system_netd.Prelude.Keys.{Name}
use system_netd.Routing.{Rule}
use system_netd.Routing.Rules.{
  vpn_output_to_local_rule, vpn_uid_range_rule, vpn_system_permission_rule, explicit_network_rule,
  local_network_rules, output_interface_rules, implicit_network_rule, vpn_local_exclusion_rule,
  vpn_fallthrough_rule, legacy_route_rules, initial_local_network_rules, last_rule, iif_loopback,
}
use system_netd.Routing.UidRules.{
  uid_network_rule, uid_default_network_rule, uid_local_network_rule, uid_unreachable_rule,
  uid_default_unreachable_rule, reject_non_secure_rule, default_network_rule, tethering_rule,
}

-- The sub-priorities of UidRanges.h.
pub record InBounds (sub : ℤ) : Type 0 where
  pub low : pos 0 ≤ℤ sub
  pub high : sub ≤ℤ pos 999

-- The interface of a VPN is not the loopback.
pub data Built : Rule → Type 0 where
  vpn_output_to_local :
      (interface : Name) → interface ≢ iif_loopback → Built (vpn_output_to_local_rule interface)
  vpn_uid_range :
      (table start stop : ℕ) (sub : ℤ) (secure exclude : Bool)
      → InBounds sub
      → Built (vpn_uid_range_rule table start stop sub secure exclude)
  vpn_system_permission :
      (net_id table : ℕ) (secure exclude : Bool)
      → Built (vpn_system_permission_rule net_id table secure exclude)
  explicit_network :
      (net_id table permission start stop : ℕ) (sub : ℤ)
      → InBounds sub
      → Built (explicit_network_rule net_id table permission start stop sub)
  local_network :
      (local_net_id table : ℕ) (r : Rule)
      → Any (λ x. r ≡ x) (local_network_rules local_net_id table)
      → Built r
  output_interface :
      (interface : Name) (table permission start stop : ℕ) (sub : ℤ) (r : Rule)
      → InBounds sub
      → Any (λ x. r ≡ x) (output_interface_rules interface table permission start stop sub)
      → Built r
  implicit_network : (net_id table : ℕ) → Built (implicit_network_rule net_id table)
  vpn_local_exclusion : (table : ℕ) → Built (vpn_local_exclusion_rule table)
  vpn_fallthrough :
      (net_id table permission : ℕ) → Built (vpn_fallthrough_rule net_id table permission)
  legacy_route : (r : Rule) → Any (λ x. r ≡ x) legacy_route_rules → Built r
  initial_local_network :
      (local_net_id : ℕ) (r : Rule)
      → Any (λ x. r ≡ x) (initial_local_network_rules local_net_id)
      → Built r
  last : Built last_rule
  uid_network :
      (net_id table start stop : ℕ) (sub : ℤ) (explicit : Bool)
      → InBounds sub
      → Built (uid_network_rule net_id table start stop sub explicit)
  uid_default_network :
      (table start stop : ℕ) (sub : ℤ)
      → InBounds sub
      → Built (uid_default_network_rule table start stop sub)
  uid_local_network : (table start stop : ℕ) → Built (uid_local_network_rule table start stop)
  uid_unreachable :
      (net_id start stop : ℕ) (sub : ℤ) (explicit : Bool)
      → InBounds sub
      → Built (uid_unreachable_rule net_id start stop sub explicit)
  uid_default_unreachable :
      (start stop : ℕ) (sub : ℤ)
      → InBounds sub
      → Built (uid_default_unreachable_rule start stop sub)
  reject_non_secure : (start stop : ℕ) → Built (reject_non_secure_rule start stop)
  default_network : (table permission : ℕ) → Built (default_network_rule table permission)
  tethering : (table : ℕ) (interface : Name) → Built (tethering_rule table interface)
