-- ===== src/Tests/Firewall.antt =====
-- A firewall whose commands always succeed.
use system_netd.Prelude.{◌≡◌, ◌+◌, ◌-◌, refl, true, false, bytes, if◌then◌else◌}
use system_netd.Prelude.Keys.{names_equal}
use system_netd.Prelude.Steps.{Step}
use system_netd.Firewall.{
  allowlist, allow, Command, flush, drop_all, insert_return, delete_return, Firewall,
  initial_firewall, setup_iptables_hooks, set_firewall_type, set_interface_rule, reset_firewall,
}
use system_netd.Firewall.Mirror.{Chains, Obeys, Reached, started, rule_set, type_set, reset}

abbrev sample_exec : Command → Step Chains
sample_exec flush w = (0, record { guarded = true; dropping = false; returns = λ n. 0 })
sample_exec drop_all w = (0, record w { dropping = true })
sample_exec (insert_return i) w =
    (0, record w { returns = λ n. if names_equal i n then w.returns n + 1 else w.returns n })
sample_exec (delete_return i) w =
    (0, record w { returns = λ n. if names_equal i n then w.returns n - 1 else w.returns n })

abbrev obeying : Obeys sample_exec
obeying = record {
  chains = λ w. w;
  flushed = λ w e. (refl, refl, λ n. refl);
  dropped = λ w e. (refl, refl, λ n. refl);
  inserted = λ i w e. (refl, refl, λ n. refl);
  deleted = λ i w e. (refl, refl, λ n. refl);
}

abbrev unset_chains : Chains
unset_chains = record { guarded = false; dropping = false; returns = λ n. 7 }

abbrev started_firewall : Firewall Chains
started_firewall = (setup_iptables_hooks sample_exec (initial_firewall unset_chains)).1

abbrev restricted_firewall : Firewall Chains
restricted_firewall = (set_firewall_type sample_exec allowlist started_firewall).1

abbrev opened_firewall : Firewall Chains
opened_firewall = (set_interface_rule sample_exec (bytes "wlan0") allow restricted_firewall).1

opened_test : Reached sample_exec obeying false opened_firewall
unfolding set_firewall_type setup_iptables_hooks set_interface_rule
opened_test =
    rule_set (bytes "wlan0") allow false restricted_firewall
      (type_set allowlist false started_firewall (started unset_chains refl) refl refl) refl

-- A reset in the mode ALLOWLIST leaves the chains open, and the mode as it was.
abbrev reset_state : Firewall Chains
reset_state = (reset_firewall sample_exec opened_firewall).1

reset_test :
    Reached sample_exec obeying true reset_state
    × (reset_state.firewall_type ≡ allowlist)
    × (reset_state.world.dropping ≡ false)
    × ((set_firewall_type sample_exec allowlist reset_state).1.world.dropping ≡ false)
unfolding reset_firewall set_firewall_type
reset_test = (reset false opened_firewall opened_test refl, refl, refl, refl)
