-- ===== src/Controller/Lifecycle/Switch.antt =====
-- What `setDefaultNetwork` of server/NetworkController.cpp has done when it returns.
use system_netd.Prelude.{
  ℕ, zero, suc, ◌<◌, ◌≡◌, ◌≢◌, refl, sym, ◌∙◌, subst, ◌⊎◌, inl, inr, Bool, true, false, not, Option,
  none, some, List, ◌==◌, arith, Bool-cases, ==_iff,
}
use system_netd.Prelude.Keys.{nat_key}
use system_netd.Prelude.Steps.{Step, ◌>>◌, and_then, update, commit, for_each}
use system_netd.Containers.Map
use system_netd.Containers.Map.{equal_refl}
use system_netd.Errno.{einval, enonet, esrch}
use system_netd.Platform.{Platform}
use system_netd.Network.{Network, Kind, PhysicalState, physical}
use system_netd.Network.Interfaces.{commit-Commits}
use system_netd.Network.Physical
use system_netd.Controller.{Controller, get_network, run_on, vpns, netid_unset}
use system_netd.Controller.Lifecycle.{
  physical_of, physical_at, begin_default, end_default, set_default_network,
}
use system_netd.Controller.Lifecycle.Elsewhere.{Elsewhere, Elsewhere-refl, physical_at-Elsewhere}

-- There is a physical network, with `mIsDefault` as given.
abbrev pub Flagged : Bool → Option Network → Type 0
Flagged b o =
    (n : Network) × (f : PhysicalState) × (o ≡ some n) × (n.kind ≡ physical f) × (f.is_default ≡ b)

-- A method of PhysicalNetwork that sets the flag whenever it succeeds.
abbrev Sets : {W : Type 0} → Bool → (PhysicalState → Step (Network × W)) → Type 0
Sets {W = W} b m =
    (f : PhysicalState) (n : Network) (w : W)
    → n.kind ≡ physical f
    → (m f (n, w)).0 ≡ 0
    → Flagged b (some ((m f (n, w)).1).0)

commit-Flagged :
    {W : Type 0} (m : Step W) (g : PhysicalState) (n : Network) (w : W)
    → (commit m (λ (k : Network). record k { kind = physical g }) (n, w)).0 ≡ 0
    → Flagged g.is_default
        (some ((commit m (λ (k : Network). record k { kind = physical g }) (n, w)).1).0)
commit-Flagged m g n w ok =
    elim (commit-Commits m (λ (k : Network). record k { kind = physical g }) n w) [
      | inl (_, e) ↦ (_, g, refl, rw e refl, refl)
      | inr (bad, _) ↦ absurd (bad ok)
    ]

module _ {W : Type 0} (p : Platform W) (vs : List ℕ) where
  add_as_default-Sets : Sets true (λ f. Physical.add_as_default p vs f)
  unfolding Physical.add_as_default
  add_as_default-Sets f n w is = elim (Bool-cases f.is_default) [
    | inl e ↦ rw e (λ ok. (n, f, refl, is, e))
    | inr e ↦ rw e (
        commit-Flagged (for_each n.interfaces (Physical.add_to_default p vs f.permission))
          (record f { is_default = true }) n w)
  ]

  remove_as_default-Sets : Sets false (λ f. Physical.remove_as_default p vs f)
  unfolding Physical.remove_as_default
  remove_as_default-Sets f n w is = elim (Bool-cases (not f.is_default)) [
    | inl e ↦ rw e (λ ok. (n, f, refl, is, ground (arith, e)))
    | inr e ↦ rw e (
        commit-Flagged (for_each n.interfaces (Physical.remove_from_default p vs f.permission))
          (record f { is_default = false }) n w)
  ]

physical_of-Flagged :
    {W : Type 0} (b : Bool) (error : ℕ) (m : PhysicalState → Step (Network × W)) (id : ℕ)
    (n : Network) (kind : Kind) (c : Controller W)
    → 0 < error
    → Sets b m
    → n.kind ≡ kind
    → (physical_of error m id n kind c).0 ≡ 0
    → Flagged b (get_network (physical_of error m id n kind c).1 id)
unfolding physical_of run_on
physical_of-Flagged b error m id n (physical f) c pos sets is ok =
    let n' = ((m f (n, c.world)).1).0 in
    rw (Map.find-insert id id n' c.networks, equal_refl id) (sets f n c.world is ok)
physical_of-Flagged b error m id n _ c pos sets is ok = absurd (omega (arith, ok, pos))

physical_at-Flagged :
    {W : Type 0} (b : Bool) (missing error : ℕ) (m : PhysicalState → Step (Network × W)) (id : ℕ)
    (o : Option Network) (c : Controller W)
    → 0 < missing
    → 0 < error
    → Sets b m
    → (physical_at missing error m id o c).0 ≡ 0
    → Flagged b (get_network (physical_at missing error m id o c).1 id)
unfolding physical_at
physical_at-Flagged b missing error m id none c pos pos' sets ok = absurd (omega (arith, ok, pos))
physical_at-Flagged b missing error m id (some n) c pos pos' sets ok =
    physical_of-Flagged b error m id n n.kind c pos' sets refl ok

abbrev pub Marked : {W : Type 0} → Bool → ℕ → Controller W → Type 0
Marked b id s = (id ≡ netid_unset) ⊎ Flagged b (get_network s id)

-- The default network is the new one, which is flagged, the old one is not flagged any more, and
-- the other networks are as they were.
pub record Switched {W : Type 0} (id : ℕ) (c s : Controller W) : Type 0 where
  pub default_net_id : s.default_net_id ≡ id
  pub new_default : Marked true id s
  pub old_default : Marked false c.default_net_id s
  pub others :
      (j : ℕ) → id == j ≡ false → c.default_net_id == j ≡ false → get_network s j ≡ get_network c j

module _ {W : Type 0} (p : Platform W) where
  begin_default-Marked :
      (id : ℕ) (c : Controller W)
      → Elsewhere id c (begin_default p id c).1
        × ((begin_default p id c).0 ≡ 0 → Marked true id (begin_default p id c).1)
  unfolding begin_default
  begin_default-Marked id c = elim (Bool-cases (id == netid_unset)) [
    | inl unset ↦ rw unset (Elsewhere-refl id c, λ ok. inl ((==_iff id 0).0 unset))
    | inr set ↦
        let add = Physical.add_as_default p (vpns c) in
        rw set (
          physical_at-Elsewhere enonet einval add id (get_network c id) c,
          λ ok. inr (
              physical_at-Flagged true enonet einval add id (get_network c id) c (omega arith)
                (omega arith) (add_as_default-Sets p (vpns c)) ok),
        )
  ]

  end_default-Marked :
      (c : Controller W)
      → Elsewhere c.default_net_id c (end_default p c).1
        × ((end_default p c).0 ≡ 0 → Marked false c.default_net_id (end_default p c).1)
  unfolding end_default
  end_default-Marked c = elim (Bool-cases (c.default_net_id == netid_unset)) [
    | inl unset ↦
        rw unset
          (Elsewhere-refl c.default_net_id c, λ ok. inl ((==_iff c.default_net_id 0).0 unset))
    | inr set ↦
        let remove = Physical.remove_as_default p (vpns c) in
        let id = c.default_net_id in
        rw set (
          physical_at-Elsewhere esrch esrch remove id (get_network c id) c,
          λ ok. inr (
              physical_at-Flagged false esrch esrch remove id (get_network c id) c (omega arith)
                (omega arith) (remove_as_default-Sets p (vpns c)) ok),
        )
  ]

  Marked-moved :
      (b : Bool) (id : ℕ) (s s' : Controller W)
      → get_network s' id ≡ get_network s id
      → Marked b id s
      → Marked b id s'
  Marked-moved b id s s' e (inl unset) = inl unset
  Marked-moved b id s s' e (inr flagged) = inr (subst (Flagged b) (sym e) flagged)

  -- The outcome: switched on success, and on failure the default network is the old one.
  abbrev pub Outcome : ℕ → Controller W → ℕ × Controller W → Type 0
  Outcome id c r =
      ((r.0 ≡ 0) × Switched id c r.1) ⊎ ((r.0 ≢ 0) × ((r.1).default_net_id ≡ c.default_net_id))

  finish-Outcome :
      (id : ℕ) (c s : Controller W) (r : ℕ × Controller W)
      → id == c.default_net_id ≡ false
      → Elsewhere id c s
      → Marked true id s
      → Elsewhere c.default_net_id s r.1
      → (r.0 ≡ 0 → Marked false c.default_net_id r.1)
      → Outcome id c (and_then (update (λ s. record s { default_net_id = id })) r)
  finish-Outcome id c s (zero, s') other e new e' old = inl (
    refl,
    record {
      default_net_id = refl;
      new_default = Marked-moved true id s s' (e'.others id (ground (arith, other))) new;
      old_default = old refl;
      others = λ j a b. e'.others j b ∙ e.others j a;
    },
  )
  finish-Outcome id c s (suc x, s') other e new e' old =
      inr (ground arith, e'.default_net_id ∙ e.default_net_id)

  after_begin-Outcome :
      (id : ℕ) (c : Controller W) (r : ℕ × Controller W)
      → id == c.default_net_id ≡ false
      → Elsewhere id c r.1
      → (r.0 ≡ 0 → Marked true id r.1)
      → Outcome id c (and_then (end_default p >> update (λ s. record s { default_net_id = id })) r)
  after_begin-Outcome id c (zero, s) other e new =
      let (e', old) = end_default-Marked s in
      let same = e.default_net_id in
      finish-Outcome id c s (end_default p s) other e (new refl)
        (subst (λ d. Elsewhere d s (end_default p s).1) same e')
        (subst (λ d. (end_default p s).0 ≡ 0 → Marked false d (end_default p s).1) same old)
  after_begin-Outcome id c (suc x, s) other e new = inr (ground arith, e.default_net_id)

  -- `setDefaultNetwork` with a network that is not the default yet: if it succeeds, the default is
  -- the new network, which is unset or a physical network with `mIsDefault` set, the old default was
  -- unset or has `mIsDefault` cleared, and the other networks are as they were; if it fails, the old
  -- default stays.
  pub set_default-Switches :
      (id : ℕ) (c : Controller W)
      → id == c.default_net_id ≡ false
      → Outcome id c (set_default_network p id c)
  unfolding set_default_network
  set_default-Switches id c other =
      let (e, new) = begin_default-Marked id c in
      rw other (after_begin-Outcome id c (begin_default p id c) other e new)
