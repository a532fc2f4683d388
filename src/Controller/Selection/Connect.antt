-- ===== src/Controller/Selection/Connect.antt =====
-- Which networks `getNetworkForUser` and `getNetworkForConnectLocked` of server/NetworkController.cpp
-- can return.
use system_netd.Prelude.{
  ℕ, ◌≡◌, refl, sym, subst, ◌⊎◌, inl, inr, true, false, Option, none, some, Bool-cases,
}
use system_netd.Prelude.Keys.{nat_key}
use system_netd.Containers.Map.{All-find}
use system_netd.Network.{Network, is_physical, is_unreachable}
use system_netd.Controller.{
  Controller, get_network, get_virtual_network_for_user,
  get_physical_or_unreachable_network_for_user,
}
use system_netd.Controller.Lifecycle.Consistent.{IsConsistent, Filed}
use system_netd.Controller.Selection.{
  net_id_or, bypassable, get_app_default, get_network_for_connect,
}
use system_netd.Controller.Selection.Best.{Least, best-Least}
use system_netd.Controller.Selection.Virtual.{Takes, Found, virtual-Found}

-- The netId is unset, or a network of the map has it that is physical or the unreachable one, or is
-- a VPN with a range for the user that satisfies the condition.
abbrev pub Usable : {W : Type 0} → (Network → Type 0) → Controller W → ℕ → ℕ → Type 0
Usable P c uid id =
    (id ≡ 0)
    ⊎ ((n : Network) × (get_network c id ≡ some n)
        × ((is_physical n ≡ true) ⊎ (is_unreachable n ≡ true) ⊎ (Takes uid n × P n)))

some_injective : {n m : Network} → some n ≡ some m → n ≡ m
some_injective e = cc e

module _ {W : Type 0} (P : Network → Type 0) (c : Controller W) (uid : ℕ) (k : IsConsistent c) where
  pub filed_at : (i : ℕ) (n : Network) → get_network c i ≡ some n → get_network c n.net_id ≡ some n
  filed_at i n here =
      let filed : Filed (i, n) = All-find Filed i n c.networks k.filed here in
      subst (λ j. get_network c j ≡ some n) (sym filed.0) here

  default-Usable :
      (o : Option Network) → Least uid c.networks o → Usable P c uid (net_id_or o c.default_net_id)
  unfolding net_id_or
  default-Usable none least = elim k.default_network [
    | inl unset ↦ inl unset
    | inr (n, here, physical) ↦ inr (n, here, inl physical)
  ]
  default-Usable (some n) (q, ((i, here), (class, _, _)), _, _) =
      inr (n, filed_at i n here, elim class [ inl a ↦ inl a | inr b ↦ inr (inl b) ])

  pub app_default-Usable : Usable P c uid (get_app_default c uid)
  unfolding get_app_default
  app_default-Usable =
      default-Usable (get_physical_or_unreachable_network_for_user c uid)
        (best-Least c uid k.sorted)

  vpn-Usable :
      (o : Option Network)
      → Found uid c.networks o
      → ((v : Network) → o ≡ some v → P v)
      → Usable P c uid (net_id_or o (get_app_default c uid))
  unfolding net_id_or
  vpn-Usable none found ok = app_default-Usable
  vpn-Usable (some v) ((i, here), takes) ok =
      inr (v, filed_at i v here, inr (inr (takes, ok v refl)))

module _ {W : Type 0} (c : Controller W) (uid : ℕ) (k : IsConsistent c) where
  bypassable-Usable :
      (o : Option Network)
      → Found uid c.networks o
      → Usable (λ v. v.secure ≡ false) c uid (net_id_or (bypassable o) (get_app_default c uid))
  unfolding bypassable net_id_or
  bypassable-Usable none found = app_default-Usable (λ v. v.secure ≡ false) c uid k
  bypassable-Usable (some v) found = elim (Bool-cases v.secure) [
    | inl secure ↦ rw secure (app_default-Usable (λ v. v.secure ≡ false) c uid k)
    | inr free ↦ rw free (
        vpn-Usable (λ v. v.secure ≡ false) c uid k (some v) found
          (λ w e. subst (λ z. z.secure ≡ false) (some_injective e) free))
  ]

  -- In a consistent state, `getNetworkForConnect` returns NETID_UNSET or the netId of a network that
  -- exists: physical, the unreachable one, or a VPN with a range for the user that may be bypassed,
  -- so the mark that a connecting socket is given implicitly never names a secure VPN.
  pub connect-Usable : Usable (λ v. v.secure ≡ false) c uid (get_network_for_connect c uid)
  unfolding get_network_for_connect
  connect-Usable =
      bypassable-Usable (get_virtual_network_for_user c uid) (virtual-Found c uid k.sorted)
