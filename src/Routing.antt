-- ===== src/Routing.antt =====
-- server/RouteController.cpp: the routing rules that netd asks the kernel for, and the request for
-- one rule. A request is the attributes that the message carries.
pub mod Priorities
pub mod Rules
pub mod UidRules
pub mod Networks
pub mod Match
pub mod Built
pub mod Matched
pub mod Lockdown
pub mod Explicit
pub mod Ranked
pub mod Covered
pub mod Plans
pub mod Planned
pub mod Performed
pub mod Parts
pub mod Refined
pub mod Counted
pub mod Prefix
pub mod Routes
pub mod LocalRoutes
pub mod Upkeep
pub mod Api
pub mod Undone
use system_netd.Prelude.{
  ℕ, ◌+◌, ◌-◌, ◌^◌, Bool, true, false, ◌&&◌, not, Option, none, some, List, length, ltb, leb, ◌==◌,
  bit_and, if◌then◌else◌,
}
use system_netd.Prelude.Int.{ℤ, pos, ltb_ℤ}
use system_netd.Prelude.Keys.{Name}
use system_netd.Prelude.Steps.{Step, ◌>>◌, fail}
use system_netd.Errno.{erange, enametoolong, enotuniq, eusers}

-- FR_ACT_TO_TBL, FR_ACT_UNREACHABLE, FR_ACT_PROHIBIT
pub data RuleType : Type 0 where
  to_table unreachable_rule prohibit_rule : RuleType

pub data Family : Type 0 where
  inet inet6 : Family

-- The arguments of `modifyIpRule` but the action; a null `const char*` is `none`.
pub record Rule : Type 0 where
  pub priority : ℤ
  pub rule_type : RuleType
  pub table : ℕ
  pub fwmark : ℕ
  pub mask : ℕ
  pub iif : Option Name
  pub oif : Option Name
  pub uid_start : ℕ
  pub uid_end : ℕ

pub record RuleRequest : Type 0 where
  pub adds : Bool
  pub family : Family
  pub rule_type : RuleType
  pub priority : ℤ
  pub table : Option ℕ
  pub fwmark : Option (ℕ × ℕ)
  pub uid_range : Option (ℕ × ℕ)
  pub iif : Option Name
  pub oif : Option Name

-- `iptablesRestoreCommandFunction` with the mark for the packets that come in by an interface.
pub record MarkCommand : Type 0 where
  pub adds : Bool
  pub interface : Name
  pub mark : ℕ
  pub mask : ℕ

-- The ways to the kernel: `sendNetlinkRequest` with a rule, `rtNetlinkFlush` on the rules,
-- `iptablesRestoreCommandFunction`, whose result is 0 or not, the queueing discipline of an
-- interface index, and the file of table names. `tethering_rules` is the number of the kernel's
-- rules with the priority of tethering.
pub record Netlink (W : Type 0) : Type 0 where
  pub send_rule : RuleRequest → Step W
  pub flush_rules : Step W
  pub tethering_rules : W → ℕ
  pub iptables_restore : MarkCommand → Step W
  pub tc_qdisc_clsact : Bool → ℕ → W → W
  pub write_table_names : List (ℕ × Name) → W → W

abbrev pub invalid_uid : ℕ
invalid_uid = 2 ^ 32 - 1

abbrev ifnamsiz : ℕ
ifnamsiz = 16

-- `padInterfaceName`: the name and its NUL must fit.
unfoldable pub name_fits : Option Name → Bool
name_fits none = true
name_fits (some name) = leb (length name + 1) ifnamsiz

unfoldable pub is_to_table : RuleType → Bool
is_to_table to_table = true
is_to_table _ = false

abbrev differ : Bool → Bool → Bool
differ a b = if a then not b else b

unfoldable pub request_of : Bool → Rule → Family → RuleRequest
request_of adds r family = record {
  adds = adds;
  family = family;
  rule_type = r.rule_type;
  priority = r.priority;
  table = if r.table == 0 then none else some r.table;
  fwmark = if r.mask == 0 then none else some (r.fwmark, r.mask);
  uid_range = if r.uid_start == invalid_uid then none else some (r.uid_start, r.uid_end);
  iif = r.iif;
  oif = r.oif;
}

-- The errno of the first check that fails, or 0.
unfoldable pub check_rule : Bool → Rule → ℕ
unfolding name_fits is_to_table
check_rule adds r =
    if ltb_ℤ r.priority (pos 0)
    then erange
    else if not (bit_and r.fwmark (2 ^ 32 - 1 - r.mask) == 0)
    then erange
    else if not (name_fits r.iif)
    then enametoolong
    else if not (name_fits r.oif)
    then enametoolong
    else if differ (r.uid_start == invalid_uid) (r.uid_end == invalid_uid)
    then eusers
    else if (r.table == 0) && is_to_table r.rule_type && adds
    then enotuniq
    else 0

-- A rule for IPv4, and then for IPv6.
unfoldable pub modify_ip_rule : {W : Type 0} → Netlink W → Bool → Rule → Step W
unfolding check_rule request_of
modify_ip_rule netlink adds r =
    if check_rule adds r == 0
    then netlink.send_rule (request_of adds r inet) >> netlink.send_rule (request_of adds r inet6)
    else fail (check_rule adds r)
