-- ===== src/FwmarkServer/Marks.antt =====
-- Which marks the switch of `processClient` in server/FwmarkServer.cpp can write.
use system_netd.Prelude.{
  ℕ, ◌^◌, ◌%◌, ◌≡◌, refl, ◌∙◌, ◌⊎◌, inl, inr, true, false, not, ◌==◌, arith, Bool-cases,
}
use system_netd.Prelude.Int.{ℤ}
use system_netd.Fwmark.{Fwmark, permission_system, has_permission}
use system_netd.Platform.{Platform}
use system_netd.Controller.{
  Controller, is_virtual_network, is_system_user, can_protect, get_permission_for_user, netid_unset,
}
use system_netd.Controller.Access.{check_user_network_access}
use system_netd.Controller.Lifecycle.Consistent.{IsConsistent}
use system_netd.Controller.Selection.{get_network_for_connect}
use system_netd.Controller.Selection.Connect.{Usable, connect-Usable}
use system_netd.FwmarkServer.{
  CmdId, on_accept, on_connect, select_network, protect_from_vpn, select_for_user,
  on_connect_complete, FwmarkCommand, FwmarkConnectInfo, Sockets, Handled, returns, marks,
  connect_mark, protect_mark, select, handle,
}

-- A mark that is to be written satisfies the predicate.
abbrev pub Writes : {W : Type 0} → (Fwmark → Type 0) → Handled W → Type 0
Writes P (returns ret w) = Unit
Writes P (marks m permission w) = P m

module _ {W : Type 0} (p : Platform W) (k : Sockets W) (uid : ℕ) (fd : ℤ) (command : FwmarkCommand)
    (info : FwmarkConnectInfo) (m : Fwmark) (c : Controller W) where
  -- Not selected explicitly; or the socket had been, and the netId is the old one, or was replaced
  -- for a client with PERMISSION_SYSTEM; or the client may use the network, which is the new netId.
  abbrev pub SelectedBy : Fwmark → Type 0
  SelectedBy new =
      (new.explicitly_selected ≡ false)
      ⊎ ((m.explicitly_selected ≡ true)
          × ((new.net_id ≡ m.net_id) ⊎ (is_system_user p c uid ≡ true)))
      ⊎ ((check_user_network_access p c uid command.net_id ≡ 0)
          × (new.net_id ≡ command.net_id % 2 ^ 16))

  abbrev pub ProtectedBy : Fwmark → Type 0
  ProtectedBy new =
      (new.protected_from_vpn ≡ false)
      ⊎ (m.protected_from_vpn ≡ true)
      ⊎ (can_protect p c uid ≡ true)

  -- what the switch does for the command
  abbrev pub handled : CmdId → Handled W
  handled cmd = handle p k cmd uid fd command info (get_permission_for_user p c uid) m c

  -- A mark with the explicit bit of the old mark and its netId, if that bit is set.
  kept-SelectedBy :
      (new : Fwmark)
      → new.explicitly_selected ≡ m.explicitly_selected
      → (m.explicitly_selected ≡ true → new.net_id ≡ m.net_id)
      → SelectedBy new
  kept-SelectedBy new same keep = elim (Bool-cases m.explicitly_selected) [
    | inl e ↦ inr (inl (e, inl (keep e)))
    | inr e ↦ inl (same ∙ e)
  ]

  connect-Kept :
      ((connect_mark c uid m).explicitly_selected ≡ m.explicitly_selected)
      × ((connect_mark c uid m).protected_from_vpn ≡ m.protected_from_vpn)
      × (m.explicitly_selected ≡ true → (connect_mark c uid m).net_id ≡ m.net_id)
  unfolding connect_mark
  connect-Kept = (ground arith, ground arith, ground arith)

  protect-Kept :
      ((protect_mark c m).explicitly_selected ≡ m.explicitly_selected)
      × (m.explicitly_selected ≡ true → (protect_mark c m).net_id ≡ m.net_id)
  unfolding protect_mark
  protect-Kept = (ground arith, ground arith)

  select-SelectedBy :
      (permission : ℕ) → Writes SelectedBy (select p k c uid command.net_id permission m)
  unfolding select
  select-SelectedBy permission =
      elim (Bool-cases (check_user_network_access p c uid command.net_id == 0)) [
        | inl granted ↦ rw granted (inr (inr (ground (arith, granted), refl)))
        | inr refused ↦ rw refused tt
      ]

  -- Whatever the command, a mark is only written with the explicit bit if the socket had it, and
  -- then the netId stays, unless the client has PERMISSION_SYSTEM; or if the client may use the
  -- network that the command names, and then that is the netId, cut to 16 bits.
  pub explicit-Granted : (cmd : CmdId) → Writes SelectedBy (handled cmd)
  unfolding handle is_system_user
  explicit-Granted on_accept = kept-SelectedBy m refl (λ e. refl)
  explicit-Granted on_connect = kept-SelectedBy (connect_mark c uid m) connect-Kept.0 connect-Kept.2
  explicit-Granted on_connect_complete = kept-SelectedBy m refl (λ e. refl)
  explicit-Granted select_network = elim (Bool-cases (command.net_id == netid_unset)) [
    | inl unset ↦ rw unset (inl refl)
    | inr named ↦ rw named (select-SelectedBy (get_permission_for_user p c uid))
  ]
  explicit-Granted protect_from_vpn = elim (Bool-cases (not (can_protect p c uid))) [
    | inl refused ↦ rw refused tt
    | inr granted ↦ rw granted (kept-SelectedBy (protect_mark c m) protect-Kept.0 protect-Kept.1)
  ]
  explicit-Granted select_for_user =
      elim (Bool-cases (not (has_permission (get_permission_for_user p c uid) permission_system))) [
        | inl refused ↦ rw refused tt
        | inr granted ↦ rw granted (elim (Bool-cases m.explicitly_selected) [
          | inl e ↦ inr (inl (e, inr (ground (arith, granted))))
          | inr e ↦ inl e
        ])
      ]
  explicit-Granted _ = tt

  select-ProtectedBy :
      (permission : ℕ) → Writes ProtectedBy (select p k c uid command.net_id permission m)
  unfolding select
  select-ProtectedBy permission =
      elim (Bool-cases (check_user_network_access p c uid command.net_id == 0)) [
        | inl granted ↦
            rw granted
              (elim (Bool-cases (can_protect p c uid)) [ inl e ↦ inr (inr e) | inr e ↦ inl e ])
        | inr refused ↦ rw refused tt
      ]

  kept-ProtectedBy :
      (new : Fwmark) → new.protected_from_vpn ≡ m.protected_from_vpn → ProtectedBy new
  kept-ProtectedBy new same = elim (Bool-cases m.protected_from_vpn) [
    | inl e ↦ inr (inl e)
    | inr e ↦ inl (same ∙ e)
  ]

  -- Whatever the command, a mark is only written with the protect bit if the socket had it or the
  -- client may protect sockets.
  pub protected-Granted : (cmd : CmdId) → Writes ProtectedBy (handled cmd)
  unfolding handle can_protect is_system_user
  protected-Granted on_accept = kept-ProtectedBy m refl
  protected-Granted on_connect = kept-ProtectedBy (connect_mark c uid m) connect-Kept.1
  protected-Granted on_connect_complete = kept-ProtectedBy m refl
  protected-Granted select_network = elim (Bool-cases (command.net_id == netid_unset)) [
    | inl unset ↦ rw unset (inl refl)
    | inr named ↦ rw named (select-ProtectedBy (get_permission_for_user p c uid))
  ]
  protected-Granted protect_from_vpn = elim (Bool-cases (can_protect p c uid)) [
    | inl granted ↦ rw granted (inr (inr granted))
    | inr refused ↦ rw refused tt
  ]
  protected-Granted select_for_user =
      elim (Bool-cases (has_permission (get_permission_for_user p c uid) permission_system)) [
        | inl granted ↦ rw granted (inr (inr (ground (arith, granted))))
        | inr refused ↦ rw refused tt
      ]
  protected-Granted _ = tt

  -- The netId is the old one, or that of a network that the client may be given implicitly, cut to
  -- 16 bits.
  abbrev pub GivenBy : Fwmark → Type 0
  GivenBy new =
      (new.net_id ≡ m.net_id)
      ⊎ ((id : ℕ) × Usable (λ v. v.secure ≡ false) c uid id × (new.net_id ≡ id % 2 ^ 16))

  default-Usable : IsConsistent c → Usable (λ v. v.secure ≡ false) c uid c.default_net_id
  default-Usable ok = elim ok.default_network [
    | inl unset ↦ inl unset
    | inr (n, here, class) ↦ inr (n, here, inl class)
  ]

  -- In a consistent state, ON_CONNECT leaves the netId of the socket, or sets NETID_UNSET or the
  -- netId of a network that exists and is physical, the unreachable one, or a VPN with a range for
  -- the client that may be bypassed: never that of a secure VPN.
  pub connect-Given : IsConsistent c → Writes GivenBy (handled on_connect)
  unfolding handle connect_mark
  connect-Given ok = elim (Bool-cases m.explicitly_selected) [
    | inl e ↦ rw e (inl refl)
    | inr e ↦ elim (Bool-cases m.protected_from_vpn) [
      | inl e' ↦ elim (Bool-cases (is_virtual_network c m.net_id)) [
        | inl v ↦ rw (e, e', v) (inl refl)
        | inr v ↦ rw (e, e', v) (inr (c.default_net_id, default-Usable ok, refl))
      ]
      | inr e' ↦ rw (e, e') (inr (get_network_for_connect c uid, connect-Usable c uid ok, refl))
    ]
  ]
