-- ===== src/Controller/Lifecycle/Elsewhere.antt =====
-- An operation on one network leaves the other networks and the default network alone.
use system_netd.Prelude.{
  ℕ, ◌≡◌, refl, inl, inr, Bool, false, not, Option, none, some, ◌==◌, Bool-cases,
}
use system_netd.Prelude.Keys.{nat_key}
use system_netd.Prelude.Steps.{Step}
use system_netd.Containers.Map
use system_netd.Platform.{Platform}
use system_netd.Network.{Network, Kind, PhysicalState, physical, is_physical}
use system_netd.Controller.{Controller, get_network, run_on}
use system_netd.Controller.Lifecycle.{
  physical_of, physical_at, fallthrough_over, fallthrough_from, modify_fallthrough,
}

-- Only the network at the netId may differ, and the rest of the system.
pub record Elsewhere {W : Type 0} (id : ℕ) (c c' : Controller W) : Type 0 where
  pub others : (j : ℕ) → id == j ≡ false → get_network c' j ≡ get_network c j
  pub default_net_id : c'.default_net_id ≡ c.default_net_id
  pub last_net_ids : c'.ifindex_to_last_net_id ≡ c.ifindex_to_last_net_id

pub Elsewhere-refl : {W : Type 0} (id : ℕ) (c : Controller W) → Elsewhere id c c
Elsewhere-refl id c = record { others = λ j e. refl; default_net_id = refl; last_net_ids = refl }

pub run_on-Elsewhere :
    {W : Type 0} (id : ℕ) (n : Network) (m : Step (Network × W)) (c : Controller W)
    → Elsewhere id c (run_on id n m c).1
unfolding run_on
run_on-Elsewhere id n m c = record {
  others = λ j e. rw (Map.find-insert id j ((m (n, c.world)).1).0 c.networks, e) refl;
  default_net_id = refl;
  last_net_ids = refl;
}

physical_of-Elsewhere :
    {W : Type 0} (error : ℕ) (m : PhysicalState → Step (Network × W)) (id : ℕ) (n : Network)
    (kind : Kind) (c : Controller W)
    → Elsewhere id c (physical_of error m id n kind c).1
unfolding physical_of
physical_of-Elsewhere error m id n (physical f) c = run_on-Elsewhere id n (m f) c
physical_of-Elsewhere error m id n _ c = Elsewhere-refl id c

pub physical_at-Elsewhere :
    {W : Type 0} (missing error : ℕ) (m : PhysicalState → Step (Network × W)) (id : ℕ)
    (o : Option Network) (c : Controller W)
    → Elsewhere id c (physical_at missing error m id o c).1
unfolding physical_at
physical_at-Elsewhere missing error m id none c = Elsewhere-refl id c
physical_at-Elsewhere missing error m id (some n) c = physical_of-Elsewhere error m id n n.kind c

module _ {W : Type 0} (p : Platform W) (id : ℕ) (add : Bool) where
  fallthrough_from-Elsewhere :
      (o : Option Network) (c : Controller W) → Elsewhere id c (fallthrough_from p id add o c).1
  unfolding fallthrough_from fallthrough_over
  fallthrough_from-Elsewhere none c = Elsewhere-refl id c
  fallthrough_from-Elsewhere (some n) c = elim (Bool-cases (not (is_physical n))) [
    | inl e ↦ rw e (Elsewhere-refl id c)
    | inr e ↦ rw e (record { others = λ j e. refl; default_net_id = refl; last_net_ids = refl })
  ]

  pub modify_fallthrough-Elsewhere :
      (c : Controller W) → Elsewhere id c (modify_fallthrough p id add c).1
  unfolding modify_fallthrough
  modify_fallthrough-Elsewhere c = elim (Bool-cases (c.default_net_id == 0)) [
    | inl unset ↦ rw unset (Elsewhere-refl id c)
    | inr set ↦ rw set (fallthrough_from-Elsewhere (get_network c c.default_net_id) c)
  ]
