-- ===== src/Firewall.antt =====
-- server/FirewallController.cpp: the firewall's mode, and the interfaces that it lets through.
pub mod Mirror
use system_netd.Prelude.{
  ℕ, Bool, true, false, ◌&&◌, ◌||◌, not, List, [], ◌∷◌, ◌++◌, bytes, length, leb, ltb, ◌==◌,
  if◌then◌else◌,
}
use system_netd.Prelude.Keys.{Name, name_key}
use system_netd.Prelude.Steps.{Step}
use system_netd.Containers.OrderedSet.{contains, insert, erase}
use system_netd.Errno.{enoent, einval, eremoteio}

-- INetd.FIREWALL_ALLOWLIST and INetd.FIREWALL_DENYLIST
pub data FirewallType : Type 0 where
  allowlist denylist : FirewallType

-- INetd.FIREWALL_RULE_ALLOW and INetd.FIREWALL_RULE_DENY
pub data FirewallRule : Type 0 where
  allow deny : FirewallRule

-- The commands for `execIptablesRestore`. `flush` is the text of `flushRules`: it empties the three
-- chains and appends the rule for IPv6 that drops packets from ::1 that leave by another interface
-- than lo. `drop_all` puts DROP and REJECT for all packets at the ends of the chains. The other two put
-- a rule RETURN for an interface at the front of two chains, or take it out of them.
pub data Command : Type 0 where
  flush : Command
  drop_all : Command
  insert_return : Name → Command
  delete_return : Name → Command

pub record Firewall (W : Type 0) : Type 0 where
  pub firewall_type : FirewallType
  pub iface_rules : List Name
  pub world : W

abbrev pub same_type : FirewallType → FirewallType → Bool
same_type allowlist allowlist = true
same_type denylist denylist = true
same_type _ _ = false

abbrev between : ℕ → ℕ → ℕ → Bool
between low high c = leb low c && leb c high

-- `isalnum` in the C locale
abbrev pub is_alnum : ℕ → Bool
is_alnum c = between 48 57 c || between 65 90 c || between 97 122 c

abbrev pub all_in_name : Name → Bool
all_in_name [] = true
all_in_name (c ∷ cs) =
    (is_alnum c || (c == 95) || (c == 45) || (c == 58) || (c == 46)) && all_in_name cs

-- `isIfaceName` of server/NetdConstants.cpp
unfoldable pub is_iface_name : Name → Bool
is_iface_name [] = false
is_iface_name (c ∷ cs) = leb (length (c ∷ cs)) 16 && is_alnum c && all_in_name cs

-- `exec` is `execIptablesRestore` with the two protocols: 0, or it failed.
module _ {W : Type 0} (exec : Command → Step W) where
  abbrev pub run_command : Command → Step (Firewall W)
  run_command command s =
      let r = exec command s.world in (if r.0 == 0 then 0 else eremoteio, record s { world = r.1 })

  unfoldable pub setup_iptables_hooks : Step (Firewall W)
  setup_iptables_hooks = run_command flush

  unfoldable pub reset_firewall : Step (Firewall W)
  reset_firewall s = run_command flush (record s { firewall_type = allowlist; iface_rules = [] })

  unfoldable pub change_type : FirewallType → Step (Firewall W)
  unfolding reset_firewall
  change_type denylist s = (0, record (reset_firewall s).1 { firewall_type = denylist })
  change_type allowlist s =
      let r = run_command drop_all (reset_firewall s).1 in
      (r.0, record r.1 { firewall_type = allowlist })

  -- The result of the reset is dropped.
  unfoldable pub set_firewall_type : FirewallType → Step (Firewall W)
  unfolding change_type
  set_firewall_type ftype s =
      if same_type s.firewall_type ftype then (0, s) else change_type ftype s

  -- The rule is written only if it is not there, and deleted only if it is. The set is changed first.
  unfoldable pub change_rule : Name → FirewallRule → Step (Firewall W)
  unfolding contains insert erase
  change_rule iface allow s =
      if contains iface s.iface_rules
      then (0, s)
      else run_command (insert_return iface) (record s { iface_rules = insert iface s.iface_rules })
  change_rule iface deny s =
      if contains iface s.iface_rules
      then run_command (delete_return iface) (record s { iface_rules = erase iface s.iface_rules })
      else (0, s)

  unfoldable pub set_interface_rule : Name → FirewallRule → Step (Firewall W)
  unfolding is_iface_name change_rule
  set_interface_rule iface rule s =
      if same_type s.firewall_type denylist
      then (einval, s)
      else if not (is_iface_name iface)
      then (enoent, s)
      else change_rule iface rule s

-- The constructor
abbrev pub initial_firewall : {W : Type 0} → W → Firewall W
initial_firewall w = record { firewall_type = denylist; iface_rules = []; world = w }

abbrev icmpv6_types : List Name
icmpv6_types =
    bytes "packet-too-big"
    ∷ bytes "router-solicitation"
    ∷ bytes "router-advertisement"
    ∷ bytes "neighbour-solicitation"
    ∷ bytes "neighbour-advertisement"
    ∷ bytes "redirect"
    ∷ []

abbrev return_lines : Name → List Name → Name
return_lines chain [] = []
return_lines chain (t ∷ ts) =
    bytes "-A "
    ++ chain
    ++ bytes " -p icmpv6 --icmpv6-type "
    ++ t
    ++ bytes " -j RETURN"
    ++ (10 ∷ return_lines chain ts)

-- The commands for a chain, if they are for IPv6, that let the messages through which IPv6 needs.
abbrev pub make_critical_commands : Bool → Name → Name
make_critical_commands for_v6 chain = if for_v6 then return_lines chain icmpv6_types else []
