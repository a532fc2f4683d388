-- ===== src/Routing/Lockdown/Sockets.antt =====
-- From the socket of an app to the rule of its VPN: server/FwmarkServer.cpp writes the mark, and the
-- rules of server/RouteController.cpp read it.
use system_netd.Prelude.{ℕ, ◌%◌, ◌≡◌, ◌≢◌, inl, inr, Bool, true, false, subst, sym, ◌∙◌, ap, arith}
use system_netd.Prelude.Int.{ℤ, ◌≤ℤ◌}
use system_netd.Fwmark.{Fwmark}
use system_netd.Platform.{Platform}
use system_netd.Controller.{Controller, can_protect}
use system_netd.FwmarkServer.{CmdId, FwmarkCommand, FwmarkConnectInfo, Sockets, marks}
use system_netd.FwmarkServer.Marks.{Writes, ProtectedBy, handled, protected-Granted}
use system_netd.Routing.{Rule}
use system_netd.Routing.Rules.{vpn_uid_range_rule, iif_loopback}
use system_netd.Routing.Match.{Packet, matches, uid_in}
use system_netd.Routing.Built.{InBounds, Built}
use system_netd.Routing.Lockdown.{OfSecureVpn, secure_vpn-Captures}

module _ {W : Type 0} (p : Platform W) (k : Sockets W) (uid : ℕ) (fd : ℤ) (command : FwmarkCommand)
    (info : FwmarkConnectInfo) (m : Fwmark) (c : Controller W) where
  -- An unprotected socket of a client that may not protect sockets stays unprotected.
  stays_unprotected :
      (cmd : CmdId) (new : Fwmark) (permission : ℕ) (w : W)
      → handled p k uid fd command info m c cmd ≡ marks new permission w
      → m.protected_from_vpn ≡ false
      → can_protect p c uid ≡ false
      → new.protected_from_vpn ≡ false
  stays_unprotected cmd new permission w wrote free may_not =
      let granted =
        subst (Writes (ProtectedBy p k uid fd command info m c)) wrote
          (protected-Granted p k uid fd command info m c cmd) in
      elim granted [
        | inl stays ↦ stays
        | inr (inl was) ↦ absurd (ground (arith, sym was ∙ free))
        | inr (inr may) ↦ absurd (ground (arith, sym may ∙ may_not))
      ]

  -- A client that may not protect sockets has an unprotected socket marked, by any command, and without
  -- PERMISSION_SYSTEM. A packet of an app with that mark, whose UID is in a range of a secure VPN,
  -- matches the rule of that range; and a rule that netd may ask for, matches it and has no higher
  -- number is such a rule of a secure VPN.
  pub marked-Captured :
      (cmd : CmdId) (new : Fwmark) (permission : ℕ) (w : W) (packet : Packet) (table start stop : ℕ)
      (sub : ℤ) (exclude : Bool) (r : Rule)
      → handled p k uid fd command info m c cmd ≡ marks new permission w
      → m.protected_from_vpn ≡ false
      → can_protect p c uid ≡ false
      → permission % 4 ≢ 3
      → packet.mark ≡ record new { permission = permission % 4 }
      → packet.iif ≡ iif_loopback
      → packet.uid ≢ 0
      → uid_in start stop packet.uid ≡ true
      → InBounds sub
      → Built r
      → matches r packet ≡ true
      → r.priority ≤ℤ (vpn_uid_range_rule table start stop sub true exclude).priority
      → (matches (vpn_uid_range_rule table start stop sub true exclude) packet ≡ true)
        × OfSecureVpn packet r
  marked-Captured cmd new permission w packet table start stop sub exclude r wrote free may_not
        ordinary mark local app within bounded built matched below =
      let same_permission = ap (λ x. x.permission) mark in
      let same_protection = ap (λ x. x.protected_from_vpn) mark in
      secure_vpn-Captures packet table start stop sub exclude r bounded local app
        (λ system. ordinary (omega (arith, system, same_permission)))
        (same_protection ∙ stays_unprotected cmd new permission w wrote free may_not) within built
        matched below
