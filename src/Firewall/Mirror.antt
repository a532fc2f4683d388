-- ===== src/Firewall/Mirror.antt =====
-- The firewall's fields and the chains of the kernel, and what calls keep between them.
use system_netd.Prelude.{ℕ, ◌+◌, ◌-◌, ◌≡◌, Bool, true, false, ◌&&◌, not, if◌then◌else◌}
use system_netd.Prelude.Keys.{Name, name_key, names_equal}
use system_netd.Prelude.Steps.{Step}
use system_netd.Containers.OrderedSet.{contains}
use system_netd.Firewall.{
  FirewallType, allowlist, FirewallRule, Command, flush, drop_all, insert_return, delete_return,
  Firewall, same_type, reset_firewall, set_firewall_type, set_interface_rule, setup_iptables_hooks,
  initial_firewall,
}

-- Whether the chains end in DROP and REJECT for all packets, whether the chain for IPv6 has the rule
-- that drops packets from ::1 that leave by another interface than lo, and how often the chains let
-- an interface through.
pub record Chains : Type 0 where
  pub guarded : Bool
  pub dropping : Bool
  pub returns : Name → ℕ

-- What a command does to the chains, if it succeeds.
pub record Obeys {W : Type 0} (exec : Command → Step W) : Type 0 where
  pub chains : W → Chains
  pub flushed :
      (w : W)
      → (exec flush w).0 ≡ 0
      → ((chains (exec flush w).1).guarded ≡ true)
        × ((chains (exec flush w).1).dropping ≡ false)
        × ((n : Name) → (chains (exec flush w).1).returns n ≡ 0)
  pub dropped :
      (w : W)
      → (exec drop_all w).0 ≡ 0
      → ((chains (exec drop_all w).1).guarded ≡ (chains w).guarded)
        × ((chains (exec drop_all w).1).dropping ≡ true)
        × ((n : Name) → (chains (exec drop_all w).1).returns n ≡ (chains w).returns n)
  pub inserted :
      (i : Name) (w : W)
      → (exec (insert_return i) w).0 ≡ 0
      → ((chains (exec (insert_return i) w).1).guarded ≡ (chains w).guarded)
        × ((chains (exec (insert_return i) w).1).dropping ≡ (chains w).dropping)
        × ((n : Name)
            → (chains (exec (insert_return i) w).1).returns n
              ≡ (if names_equal i n then (chains w).returns n + 1 else (chains w).returns n))
  pub deleted :
      (i : Name) (w : W)
      → (exec (delete_return i) w).0 ≡ 0
      → ((chains (exec (delete_return i) w).1).guarded ≡ (chains w).guarded)
        × ((chains (exec (delete_return i) w).1).dropping ≡ (chains w).dropping)
        × ((n : Name)
            → (chains (exec (delete_return i) w).1).returns n
              ≡ (if names_equal i n then (chains w).returns n - 1 else (chains w).returns n))

module _ {W : Type 0} (exec : Command → Step W) (k : Obeys exec) where
  -- The chains let exactly the interfaces of the set through, each by one rule, and drop the packets
  -- from ::1 that leave by another interface than lo. They end in DROP for all packets in the mode
  -- ALLOWLIST, unless `bare` holds, and do not in the mode DENYLIST; `bare` holds only in the mode
  -- ALLOWLIST.
  pub record InSync (bare : Bool) (s : Firewall W) : Type 0 where
    pub guard : (k.chains s.world).guarded ≡ true
    pub mode : (k.chains s.world).dropping ≡ (same_type s.firewall_type allowlist && not bare)
    pub bare_mode : bare ≡ true → s.firewall_type ≡ allowlist
    pub rules :
        (n : Name) → (k.chains s.world).returns n ≡ (if contains n s.iface_rules then 1 else 0)

  -- The states that calls lead to which succeed, where the flush succeeds too whose result
  -- `setFirewallType` drops, and whether `resetFirewall` was called since the last change of the type.
  -- `setupIptablesHooks` is called once, at the start.
  pub data Reached : Bool → Firewall W → Type 0 where
    started :
        (w : W)
        → (exec flush w).0 ≡ 0
        → Reached false (setup_iptables_hooks exec (initial_firewall w)).1
    rule_set :
        (iface : Name) (rule : FirewallRule) (bare : Bool) (s : Firewall W)
        → Reached bare s
        → (set_interface_rule exec iface rule s).0 ≡ 0
        → Reached bare (set_interface_rule exec iface rule s).1
    type_set :
        (t : FirewallType) (bare : Bool) (s : Firewall W)
        → Reached bare s
        → (exec flush s.world).0 ≡ 0
        → (set_firewall_type exec t s).0 ≡ 0
        → Reached (bare && same_type s.firewall_type t) (set_firewall_type exec t s).1
    reset :
        (bare : Bool) (s : Firewall W)
        → Reached bare s
        → (reset_firewall exec s).0 ≡ 0
        → Reached true (reset_firewall exec s).1
