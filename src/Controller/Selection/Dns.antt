-- ===== src/Controller/Selection/Dns.antt =====
-- The network and the mark that `getNetworkForDnsLocked` of server/NetworkController.cpp chooses.
use system_netd.Prelude.{
  ℕ, ◌%◌, ◌^◌, ◌≡◌, sym, subst, ◌⊎◌, inl, inr, Bool, true, false, not, ◌&&◌, ◌||◌, Option, none,
  some, ◌==◌, if◌then◌else◌, arith, Bool-cases,
}
use system_netd.Fwmark.{empty_mark, int_value, from_int_value, permission_system}
use system_netd.Platform.{Platform}
use system_netd.Network.{Network, bare_class, is_virtual}
use system_netd.Controller.{Controller, get_network, get_virtual_network_for_user, netid_unset}
use system_netd.Controller.Access.{check_user_network_access, check_access-Entitled}
use system_netd.Controller.Lifecycle.Consistent.{IsConsistent}
use system_netd.Controller.Selection.{
  is_none, mark_for_dns, dns_for_selected, dns_for_vpn, get_app_default, get_network_for_dns,
}
use system_netd.Controller.Selection.Virtual.{Found, virtual-Found}
use system_netd.Controller.Selection.Connect.{app_default-Usable, filed_at}

mark-Read :
    (id : ℕ) (explicit : Bool)
    → let mark = from_int_value (mark_for_dns id explicit) in
      (mark.net_id ≡ id % 2 ^ 16)
      × (mark.permission ≡ permission_system)
      × (mark.protected_from_vpn ≡ true)
      × (mark.explicitly_selected ≡ explicit)
unfolding mark_for_dns int_value from_int_value empty_mark
mark-Read id explicit = (ground arith, ground arith, ground arith, ground arith)

module _ {W : Type 0} (p : Platform W) (c : Controller W) (uid : ℕ) where
  -- The netId is unset, or names a network that is no VPN, or a VPN that has DNS servers.
  abbrev pub Serves : ℕ → Type 0
  Serves id =
      (id ≡ 0)
      ⊎ ((n : Network) × (get_network c id ≡ some n)
          × ((is_virtual n ≡ false) ⊎ (p.resolv_has_nameservers c.world id ≡ true)))

  default-Serves : IsConsistent c → Serves (get_app_default c uid)
  default-Serves k = elim (app_default-Usable (λ v. ⊥) c uid k) [
    | inl unset ↦ inl unset
    | inr (n, here, inl class) ↦ inr (n, here, inl (bare_class n (inl class)))
    | inr (n, here, inr (inl class)) ↦ inr (n, here, inl (bare_class n (inr class)))
    | inr (n, here, inr (inr (_, never))) ↦ absurd never
  ]

  selected-Serves :
      (net_id d : ℕ) (n : Network)
      → get_network c net_id ≡ some n
      → Serves d
      → Serves (dns_for_selected p c net_id d (some n))
  unfolding dns_for_selected
  selected-Serves net_id d n here ok =
      elim (Bool-cases (is_virtual n && not (p.resolv_has_nameservers c.world net_id))) [
        | inl bare ↦ rw bare ok
        | inr served ↦ rw served (inr (n, here, ground (arith, served)))
      ]

  vpn-Serves :
      (d : ℕ) (o : Option Network)
      → IsConsistent c
      → Found uid c.networks o
      → Serves d
      → Serves (dns_for_vpn p c d o)
  unfolding dns_for_vpn
  vpn-Serves d none k found ok = ok
  vpn-Serves d (some v) k ((i, here), takes) ok =
      elim (Bool-cases (p.resolv_has_nameservers c.world v.net_id)) [
        | inl served ↦ rw served (inr (v, filed_at (λ v. ⊥) c uid k i v here, inr served))
        | inr bare ↦ rw bare ok
      ]

  chosen : ℕ → ℕ × ℕ
  chosen net_id =
      let d = get_app_default c uid in
      let selected = dns_for_selected p c net_id d (get_network c net_id) in
      let through_vpn = dns_for_vpn p c d (get_virtual_network_for_user c uid) in
      if check_user_network_access p c uid net_id == 0
      then (selected, mark_for_dns selected true)
      else (through_vpn, mark_for_dns through_vpn false)

  -- behind the common case
  chosen-Serves : (net_id : ℕ) → IsConsistent c → Serves (chosen net_id).0
  unfolding chosen
  chosen-Serves net_id k =
      let d = get_app_default c uid in
      elim (Bool-cases (check_user_network_access p c uid net_id == 0)) [
        | inl granted ↦
            let (n, here, _, _) =
              (check_access-Entitled p c uid net_id).0 (ground (arith, granted)) in
            rw granted (
              subst (λ o. Serves (dns_for_selected p c net_id d o)) (sym here)
                (selected-Serves net_id d n here (default-Serves k)))
        | inr refused ↦ rw refused (
            vpn-Serves d (get_virtual_network_for_user c uid) k (virtual-Found c uid k.sorted)
              (default-Serves k))
      ]

  -- In a consistent state, the network whose DNS servers a user is given is unset or exists, and if
  -- it is a VPN, it has DNS servers.
  pub dns-Serves : (net_id : ℕ) → IsConsistent c → Serves (get_network_for_dns p c net_id uid).0
  unfolding get_network_for_dns chosen
  dns-Serves net_id k =
      elim (Bool-cases (net_id == netid_unset && is_none (get_virtual_network_for_user c uid))) [
        | inl common ↦ rw common (default-Serves k)
        | inr other ↦ rw other (chosen-Serves net_id k)
      ]

  -- The mark carries the chosen netId, cut to 16 bits, PERMISSION_SYSTEM and the protect bit, and it
  -- has the explicit bit exactly if the query named no network and no VPN applies to the user, or
  -- the user may use the network that the query named.
  dns-Marks :
      (net_id : ℕ)
      → let r = get_network_for_dns p c net_id uid in
        let mark = from_int_value r.1 in
        (mark.net_id ≡ r.0 % 2 ^ 16)
        × (mark.permission ≡ permission_system)
        × (mark.protected_from_vpn ≡ true)
        × (mark.explicitly_selected ≡ (
            (net_id == netid_unset && is_none (get_virtual_network_for_user c uid))
            || check_user_network_access p c uid net_id == 0))
  unfolding get_network_for_dns
  dns-Marks net_id =
      let common = net_id == netid_unset && is_none (get_virtual_network_for_user c uid) in
      elim (Bool-cases common) [
        | inl e ↦ rw e (mark-Read (get_app_default c uid) true)
        | inr e ↦ elim (Bool-cases (check_user_network_access p c uid net_id == 0)) [
          | inl e' ↦
              rw (e, e')
                (mark-Read
                  (dns_for_selected p c net_id (get_app_default c uid) (get_network c net_id)) true)
          | inr e' ↦
              rw (e, e')
                (mark-Read
                  (dns_for_vpn p c (get_app_default c uid) (get_virtual_network_for_user c uid))
                  false)
        ]
      ]
