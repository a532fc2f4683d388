-- ===== src/Controller/Access.antt =====
-- `checkUserNetworkAccessLocked` and `isUidAllowed` of server/NetworkController.cpp.
use system_netd.Prelude.{
  ℕ, ◌≡◌, ◌≢◌, refl, ◌↔◌, ◌⊎◌, inl, inr, Bool, true, false, not, ◌&&◌, Option, none, some, ◌==◌,
  if◌then◌else◌, arith, Bool-cases,
}
use system_netd.Errno.{eperm, eacces, enonet, eremoteio}
use system_netd.Fwmark.{has_permission}
use system_netd.Platform.{Platform}
use system_netd.Network.{
  Network, is_physical, is_virtual, is_unreachable, is_uid_allowed, get_permission,
}
use system_netd.Controller.{
  Controller, get_network, get_permission_for_user, is_system_user, is_protectable,
  get_virtual_network_for_user, applies_to, invalid_uid, netid_unset,
}

is_some_secure : Option Network → Bool
is_some_secure none = false
is_some_secure (some v) = v.secure

module _ {W : Type 0} (p : Platform W) where
  -- A VPN that may not be bypassed applies to the user, who may not protect sockets from it.
  unfoldable pub is_locked_in : Controller W → ℕ → Bool
  unfolding is_some_secure
  is_locked_in c uid =
      is_some_secure (get_virtual_network_for_user c uid) && not (is_protectable p c uid)

  -- the checks behind that for PERMISSION_SYSTEM
  unfoldable pub check_ordinary_user : Controller W → ℕ → Network → ℕ
  check_ordinary_user c uid n =
      if is_virtual n
      then (if applies_to n uid then 0 else eperm)
      else if is_locked_in c uid
      then eperm
      else if is_physical n && applies_to n uid
      then 0
      else if is_unreachable n
      then (if applies_to n uid then 0 else eperm)
      else if not (is_uid_allowed n uid)
      then eacces
      else if has_permission (get_permission_for_user p c uid) (get_permission n)
      then 0
      else eacces

  check_network : Controller W → ℕ → Option Network → ℕ
  unfolding check_ordinary_user
  check_network c uid none = enonet
  check_network c uid (some n) =
      if uid == invalid_uid
      then eremoteio
      else if is_system_user p c uid
      then 0
      else check_ordinary_user c uid n

  unfoldable pub check_user_network_access : Controller W → ℕ → ℕ → ℕ
  unfolding check_network
  check_user_network_access c uid net_id = check_network c uid (get_network c net_id)

  -- What gives an ordinary user the use of a network.
  abbrev pub Entitled : Controller W → ℕ → Network → Type 0
  Entitled c uid n =
      ((is_virtual n ≡ true) × (applies_to n uid ≡ true))
      ⊎ ((is_virtual n ≡ false)
          × (is_locked_in c uid ≡ false)
          × (((is_physical n ≡ true) × (applies_to n uid ≡ true))
              ⊎ ((is_unreachable n ≡ true) × (applies_to n uid ≡ true))
              ⊎ ((is_unreachable n ≡ false)
                  × (is_uid_allowed n uid ≡ true)
                  × (has_permission (get_permission_for_user p c uid) (get_permission n) ≡ true))))

  ordinary-Entitled :
      (c : Controller W) (uid : ℕ) (n : Network)
      → (check_ordinary_user c uid n ≡ 0) ↔ Entitled c uid n
  unfolding check_ordinary_user
  ordinary-Entitled c uid n = ground arith

  granted :
      (c : Controller W) (uid : ℕ) (n : Network)
      → uid ≢ invalid_uid
      → (is_system_user p c uid ≡ true) ⊎ Entitled c uid n
      → check_network c uid (some n) ≡ 0
  unfolding check_network
  granted c uid n valid (inl system) = ground arith
  granted c uid n valid (inr e) = ground (arith, (ordinary-Entitled c uid n).1 e)

  refused_or_Entitled :
      (c : Controller W) (uid : ℕ) (n : Network)
      → check_network c uid (some n) ≡ 0
      → (uid ≢ invalid_uid) × ((is_system_user p c uid ≡ true) ⊎ Entitled c uid n)
  unfolding check_network
  refused_or_Entitled c uid n e = elim (Bool-cases (is_system_user p c uid)) [
    | inl system ↦ (ground arith, inl system)
    | inr ordinary ↦ (ground arith, inr ((ordinary-Entitled c uid n).0 (ground arith)))
  ]

  network-Entitled :
      (c : Controller W) (uid : ℕ) (o : Option Network)
      → (check_network c uid o ≡ 0) ↔ (
          (n : Network) × (o ≡ some n)
          × (uid ≢ invalid_uid)
          × ((is_system_user p c uid ≡ true) ⊎ Entitled c uid n))
  network-Entitled c uid none = (unfold check_network in λ e. absurd (omega arith), λ g. cc (g.1))
  network-Entitled c uid (some n) = (
    λ e. let (valid, why) = refused_or_Entitled c uid n e in (n, refl, valid, why),
    λ (m, e, valid, why). rw e (granted c uid m valid why),
  )

  pub check_access-Entitled :
      (c : Controller W) (uid net_id : ℕ)
      → (check_user_network_access c uid net_id ≡ 0) ↔ (
          (n : Network) × (get_network c net_id ≡ some n)
          × (uid ≢ invalid_uid)
          × ((is_system_user p c uid ≡ true) ⊎ Entitled c uid n))
  unfolding check_user_network_access
  check_access-Entitled c uid net_id = network-Entitled c uid (get_network c net_id)

  -- A user under a VPN that may not be bypassed, who has no PERMISSION_SYSTEM and may not protect
  -- sockets, can be given no network but a VPN with a range that holds the user.
  pub locked_in_user :
      (c : Controller W) (uid net_id : ℕ) (v : Network)
      → get_virtual_network_for_user c uid ≡ some v
      → v.secure ≡ true
      → is_system_user p c uid ≡ false
      → is_protectable p c uid ≡ false
      → check_user_network_access c uid net_id ≡ 0
      → (n : Network) × (get_network c net_id ≡ some n)
        × (is_virtual n ≡ true)
        × (applies_to n uid ≡ true)
  unfolding is_locked_in
  locked_in_user c uid net_id v vpn secure ordinary unprotected e =
      let (n, here, _, why) = (check_access-Entitled c uid net_id).0 e in
      let locked : is_locked_in c uid ≡ true = rw (vpn, is_locked_in) (ground arith) in
      (n, here, ground arith, ground arith)

  allowed_by : Controller W → ℕ → ℕ → Option Network → Bool
  allowed_by c net_id uid none = net_id == netid_unset && c.default_net_id == netid_unset
  allowed_by c net_id uid (some n) =
      if net_id == netid_unset && c.default_net_id == netid_unset
      then true
      else is_uid_allowed n uid

  unfoldable pub is_uid_allowed_on : Controller W → ℕ → ℕ → Bool
  unfolding allowed_by
  is_uid_allowed_on c net_id uid = allowed_by c net_id uid (get_network c net_id)
