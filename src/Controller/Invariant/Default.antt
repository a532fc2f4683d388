-- ===== src/Controller/Invariant/Default.antt =====
-- The change of the default network.
use system_netd.Prelude.{ℕ, zero, suc, ◌≡◌, refl, inl, inr, ◌==◌, arith, Bool-cases}
use system_netd.Prelude.Keys.{nat_key, name_key}
use system_netd.Prelude.Steps.{◌>>◌, and_then}
use system_netd.Errno.{einval, enonet, esrch}
use system_netd.Platform.{Platform}
use system_netd.Network.Physical
use system_netd.Controller.{Controller, get_network, vpns, netid_unset}
use system_netd.Controller.Lifecycle.{begin_default, end_default, set_default_network}
use system_netd.Controller.Lifecycle.Consistent.{IsDefault, IsConsistent, Consistent-default}
use system_netd.Controller.Lifecycle.Preserves.{
  Holds, Holds-IsConsistent, physical_at-Holds, physical_at-IsDefault, add_as_default-KeepsAll,
  remove_as_default-KeepsAll,
}

module _ {W : Type 0} (p : Platform W) where
  begin_default-Holds :
      (d e net_id : ℕ) (c : Controller W) → Holds d e c → Holds d e (begin_default p net_id c).1
  unfolding begin_default
  begin_default-Holds d e net_id c k = elim (Bool-cases (net_id == netid_unset)) [
    | inl z ↦ rw z k
    | inr z ↦ rw z (
        physical_at-Holds d e enonet einval (Physical.add_as_default p (vpns c)) net_id
          (get_network c net_id) c (λ f n w is. add_as_default-KeepsAll p (vpns c) n w f is) refl k)
  ]

  begin_default-IsDefault :
      (net_id : ℕ) (c : Controller W)
      → (begin_default p net_id c).0 ≡ 0
      → IsDefault net_id c.networks
  unfolding begin_default
  begin_default-IsDefault net_id c = elim (Bool-cases (net_id == netid_unset)) [
    | inl z ↦ λ ok. inl (ground arith)
    | inr z ↦ rw z (
        physical_at-IsDefault enonet einval (Physical.add_as_default p (vpns c)) net_id
          (get_network c net_id) c (omega arith) (omega arith) refl)
  ]

  end_default-Holds : (d e : ℕ) (c : Controller W) → Holds d e c → Holds d e (end_default p c).1
  unfolding end_default
  end_default-Holds d e c k = elim (Bool-cases (c.default_net_id == netid_unset)) [
    | inl z ↦ rw z k
    | inr z ↦ rw z (
        physical_at-Holds d e esrch esrch (Physical.remove_as_default p (vpns c)) c.default_net_id
          (get_network c c.default_net_id) c
          (λ f n w is. remove_as_default-KeepsAll p (vpns c) n w f is) refl k)
  ]

  after_end :
      (d net_id : ℕ) (r : ℕ × Controller W)
      → Holds d d r.1
      → Holds net_id d r.1
      → IsConsistent (and_then (λ s. (0, record s { default_net_id = net_id })) r).1
  after_end d net_id (zero, s) old new = new.0
  after_end d net_id (suc x, s) old new = Holds-IsConsistent d s old

  after_begin :
      (d net_id : ℕ) (r : ℕ × Controller W)
      → Holds d d r.1
      → (r.0 ≡ 0 → Holds net_id d r.1)
      → IsConsistent
          (and_then (end_default p >> λ s. (0, record s { default_net_id = net_id })) r).1
  after_begin d net_id (zero, s) old new =
      after_end d net_id (end_default p s) (end_default-Holds d d s old)
        (end_default-Holds net_id d s (new refl))
  after_begin d net_id (suc x, s) old new = Holds-IsConsistent d s old

  pub set_default_network-IsConsistent :
      (net_id : ℕ) (c : Controller W)
      → IsConsistent c
      → IsConsistent (set_default_network p net_id c).1
  unfolding set_default_network
  set_default_network-IsConsistent net_id c k = elim (Bool-cases (net_id == c.default_net_id)) [
    | inl same ↦ rw same k
    | inr other ↦ rw other (
        after_begin c.default_net_id net_id (begin_default p net_id c)
          (begin_default-Holds c.default_net_id c.default_net_id net_id c (k, refl))
          (λ ok. begin_default-Holds net_id c.default_net_id net_id c (
            Consistent-default c.default_net_id c.networks net_id k
                (begin_default-IsDefault net_id c ok),
            refl,
          )))
  ]
