-- ===== src/Routing/Api/Tethering.antt =====
-- `clearTetheringRules` ends.
use system_netd.Prelude.{
  ℕ, zero, suc, ◌+◌, ◌<◌, ◌≡◌, ◌≢◌, inl, inr, false, ◌==◌, ==_iff, if◌then◌else◌, refl, arith,
  Bool-cases,
}
use system_netd.Prelude.Keys.{Name}
use system_netd.Errno.{enoent}
use system_netd.Routing.{Netlink, modify_ip_rule}
use system_netd.Routing.UidRules.{tethering_rule}
use system_netd.Routing.Upkeep.{clear_tethering_rules, clear_all_tethering_rules}

-- Each rule that is deleted is one rule less.
unfoldable pub Shrinks : {W : Type 0} → Netlink W → Name → Type 0
Shrinks {W} netlink interface =
    (w : W)
    → let r = modify_ip_rule netlink false (tethering_rule 0 interface) w in
      r.0 ≡ 0 → netlink.tethering_rules r.1 < netlink.tethering_rules w

-- ENOENT is the end, and any other error is the result.
abbrev outcome : {W : Type 0} → ℕ × W → ℕ × W
outcome r = if r.0 == enoent then (0, r.1) else r

-- The loop ended since the last deletion, in the state `last`, failed: with ENOENT, for which the
-- result is 0, or with another error, which is the result.
pub data Cleared {W : Type 0} (netlink : Netlink W) (interface : Name) (r : ℕ × W) : Type 0 where
  ended :
      (last : W)
      → (modify_ip_rule netlink false (tethering_rule 0 interface) last).0 ≢ 0
      → r ≡ outcome (modify_ip_rule netlink false (tethering_rule 0 interface) last)
      → Cleared netlink interface r

module _ {W : Type 0} (netlink : Netlink W) (interface : Name)
    (shrinks : Shrinks netlink interface) where
  clear-Cleared :
      (fuel : ℕ) (w : W)
      → netlink.tethering_rules w < fuel
      → Cleared netlink interface (clear_tethering_rules netlink interface fuel w)
  unfolding clear_tethering_rules Shrinks
  clear-Cleared zero w h = absurd (omega arith)
  clear-Cleared (suc fuel) w h =
      let r = modify_ip_rule netlink false (tethering_rule 0 interface) w in
      elim (Bool-cases (r.0 == 0)) [
        | inl deleted ↦
            let less = shrinks w ((==_iff _ _).0 deleted) in
            rw deleted (clear-Cleared fuel r.1 (omega (arith, less)))
        | inr failed ↦ rw failed (ended w (ground (arith, failed)) refl)
      ]

  -- If each deletion leaves one rule less, `clearTetheringRules` ends, by a deletion that failed.
  pub clear_all-Cleared :
      (w : W) → Cleared netlink interface (clear_all_tethering_rules netlink interface w)
  unfolding clear_all_tethering_rules
  clear_all-Cleared w = clear-Cleared (netlink.tethering_rules w + 1) w (omega arith)
