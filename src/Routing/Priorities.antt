-- ===== src/Routing/Priorities.antt =====
-- The priorities of rules, server/RouteController.h: the kernel tries the lowest number first.
use system_netd.Prelude.Int.{ℤ, pos}

abbrev pub rule_priority_vpn_override_system : ℤ
rule_priority_vpn_override_system = pos 10000

abbrev pub rule_priority_vpn_override_oif : ℤ
rule_priority_vpn_override_oif = pos 11000

abbrev pub rule_priority_vpn_output_to_local : ℤ
rule_priority_vpn_output_to_local = pos 12000

abbrev pub rule_priority_secure_vpn : ℤ
rule_priority_secure_vpn = pos 13000

abbrev pub rule_priority_prohibit_non_vpn : ℤ
rule_priority_prohibit_non_vpn = pos 14000

abbrev pub rule_priority_uid_explicit_network : ℤ
rule_priority_uid_explicit_network = pos 15000

abbrev pub rule_priority_explicit_network : ℤ
rule_priority_explicit_network = pos 16000

abbrev pub rule_priority_output_interface : ℤ
rule_priority_output_interface = pos 17000

abbrev pub rule_priority_legacy_system : ℤ
rule_priority_legacy_system = pos 18000

abbrev pub rule_priority_legacy_network : ℤ
rule_priority_legacy_network = pos 19000

abbrev pub rule_priority_local_network : ℤ
rule_priority_local_network = pos 20000

abbrev pub rule_priority_tethering : ℤ
rule_priority_tethering = pos 21000

abbrev pub rule_priority_uid_implicit_network : ℤ
rule_priority_uid_implicit_network = pos 22000

abbrev pub rule_priority_implicit_network : ℤ
rule_priority_implicit_network = pos 23000

abbrev pub rule_priority_bypassable_vpn_no_local_exclusion : ℤ
rule_priority_bypassable_vpn_no_local_exclusion = pos 24000

abbrev pub rule_priority_uid_local_routes : ℤ
rule_priority_uid_local_routes = pos 25000

abbrev pub rule_priority_local_routes : ℤ
rule_priority_local_routes = pos 26000

abbrev pub rule_priority_bypassable_vpn_local_exclusion : ℤ
rule_priority_bypassable_vpn_local_exclusion = pos 27000

abbrev pub rule_priority_vpn_fallthrough : ℤ
rule_priority_vpn_fallthrough = pos 28000

abbrev pub rule_priority_uid_default_network : ℤ
rule_priority_uid_default_network = pos 29000

abbrev pub rule_priority_uid_default_unreachable : ℤ
rule_priority_uid_default_unreachable = pos 30000

abbrev pub rule_priority_default_network : ℤ
rule_priority_default_network = pos 31000

abbrev pub rule_priority_unreachable : ℤ
rule_priority_unreachable = pos 32000
