-- ===== src/Routing/Upkeep.antt =====
-- server/RouteController.cpp: the clean-up of tethering, and the names of the tables.
use system_netd.Prelude.{
  ℕ, zero, suc, ◌+◌, ◌-◌, ◌%◌, ◌^◌, Bool, false, ◌&&◌, List, [], ◌∷◌, ◌++◌, bytes, ◌==◌,
  if◌then◌else◌,
}
use system_netd.Prelude.Keys.{Name, name_key}
use system_netd.Prelude.Steps.{Step}
use system_netd.Containers.Map.{Map}
use system_netd.Errno.{enoent}
use system_netd.RouteTables.{
  route_table_local_network, route_table_legacy_network, route_table_legacy_system,
  route_table_offset_from_index, route_table_offset_from_index_for_local,
}
use system_netd.Routing.{Netlink, modify_ip_rule}
use system_netd.Routing.UidRules.{tethering_rule}

-- `clearTetheringRules`, with fuel: the loop deletes until it fails; ENOENT is the end.
unfoldable pub clear_tethering_rules : {W : Type 0} → Netlink W → Name → ℕ → Step W
unfolding modify_ip_rule tethering_rule
clear_tethering_rules netlink interface zero w = (enoent, w)
clear_tethering_rules netlink interface (suc fuel) w =
    let r = modify_ip_rule netlink false (tethering_rule 0 interface) w in
    let rest = clear_tethering_rules netlink interface fuel r.1 in
    if r.0 == 0 then rest else if r.0 == enoent then (0, r.1) else r

-- The rules that the kernel has with the priority of tethering bound the rounds.
unfoldable pub clear_all_tethering_rules : {W : Type 0} → Netlink W → Name → Step W
unfolding clear_tethering_rules
clear_all_tethering_rules netlink interface w =
    clear_tethering_rules netlink interface (netlink.tethering_rules w + 1) w

-- `StartsWith(interface, "v4-")`
unfoldable pub is_clat : Name → Bool
is_clat (a ∷ b ∷ c ∷ rest) = (a == 118) && (b == 52) && (c == 45)
is_clat _ = false

-- The tables that `updateTableNamesFile` writes for the interfaces.
unfoldable pub interface_names : Map Name ℕ → List (ℕ × Name)
interface_names [] = []
interface_names ((name, table) ∷ tables) =
    let offset = route_table_offset_from_index_for_local - route_table_offset_from_index in
    (table, name) ∷ ((offset + table) % 2 ^ 32, name ++ bytes "_local") ∷ interface_names tables

unfoldable pub table_names : Map Name ℕ → List (ℕ × Name)
unfolding interface_names
table_names tables =
    (255, bytes "local")
    ∷ (254, bytes "main")
    ∷ (route_table_local_network, bytes "local_network")
    ∷ (route_table_legacy_network, bytes "legacy_network")
    ∷ (route_table_legacy_system, bytes "legacy_system")
    ∷ interface_names tables
