-- ===== src/Controller/Lifecycle/Preserves.antt =====
-- Every operation of the controller keeps the invariant, whatever the kernel answers.
use system_netd.Prelude.{
  ℕ, ◌<◌, ◌≡◌, refl, inl, inr, true, not, Option, none, some, List, ◌==◌, arith, Bool-cases,
}
use system_netd.Prelude.Int.{ℤ}
use system_netd.Prelude.Keys.{Name, nat_key, name_key}
use system_netd.Prelude.Steps.{Step, commit}
use system_netd.Containers.Map.{Map}
use system_netd.Containers.OrderedSet
use system_netd.UidRanges.{UidRanges}
use system_netd.Platform.{Platform}
use system_netd.Network.{
  Network, Kind, PhysicalState, physical, is_physical, has_interface, add_to_uid_range_map,
  remove_from_uid_range_map,
}
use system_netd.Network.Physical
use system_netd.Network.Dispatch
use system_netd.Network.Interfaces.{
  Commits, commit-Commits, without_interface, remove_interface-Commits, clear_interfaces-Clears,
}
use system_netd.Network.Users.{add_users-Answers, remove_users-Answers}
use system_netd.Controller.{Controller, get_network, run_on}
use system_netd.Controller.Lifecycle.{physical_of, physical_at}
use system_netd.Controller.Lifecycle.Consistent.{
  IsDefault, Consistent, IsConsistent, Keeps, Consistent-replace,
}

-- Nothing that the invariant speaks of changes.
abbrev pub KeepsAll : Network → Network → Type 0
KeepsAll n n' =
    (n'.net_id ≡ n.net_id)
    × (is_physical n' ≡ is_physical n)
    × ((x : Name) → has_interface n' x ≡ true → has_interface n x ≡ true)

KeepsAll-refl : (n : Network) → KeepsAll n n
KeepsAll-refl n = (refl, refl, λ x h. h)

pub Keeps-of_all : (ns : Map ℕ Network) (id : ℕ) (n n' : Network) → KeepsAll n n' → Keeps ns id n n'
Keeps-of_all ns id n n' k = record { net_id = k.0; class = k.1; interfaces = λ x h. inl (k.2 x h) }

Commits-KeepsAll :
    {W : Type 0} (g : Network → Network) (n : Network) (r : ℕ × (Network × W))
    → KeepsAll n (g n)
    → Commits g n r
    → KeepsAll n (r.1).0
Commits-KeepsAll g n r k (inl (_, e)) = rw e k
Commits-KeepsAll g n r k (inr (_, e)) = rw e (KeepsAll-refl n)

-- The networks are consistent with `d` for the default, and `e` is the default.
abbrev pub Holds : {W : Type 0} → ℕ → ℕ → Controller W → Type 0
Holds d e c = Consistent d c.networks × (c.default_net_id ≡ e)

pub Holds-IsConsistent : {W : Type 0} (d : ℕ) (c : Controller W) → Holds d d c → IsConsistent c
Holds-IsConsistent d c (k, e) = rw e k

-- A method that keeps all, on the object at its netId.
pub run_on-Holds :
    {W : Type 0} (d e id : ℕ) (n : Network) (m : Step (Network × W)) (c : Controller W)
    → get_network c id ≡ some n
    → KeepsAll n ((m (n, c.world)).1).0
    → Holds d e c
    → Holds d e (run_on id n m c).1
unfolding run_on
run_on-Holds d e id n m c here keeps (k, default) = (
  Consistent-replace d c.networks id k n ((m (n, c.world)).1).0 here
      (Keeps-of_all c.networks id n ((m (n, c.world)).1).0 keeps),
  default,
)

without-KeepsAll : (i : Name) (n : Network) → KeepsAll n (without_interface i n)
unfolding is_physical
without-KeepsAll i n = elim (Bool-cases (not (has_interface n i))) [
  | inl absent ↦ rw absent (KeepsAll-refl n)
  | inr there ↦
      rw there (refl, refl, λ x h. ground (arith, h, OrderedSet.contains-erase i x n.interfaces))
]

module _ {W : Type 0} (p : Platform W) (vs : List ℕ) (n : Network) (w : W) where
  pub remove_interface-KeepsAll :
      (i : Name) → KeepsAll n ((Dispatch.remove_interface p vs i (n, w)).1).0
  remove_interface-KeepsAll i =
      Commits-KeepsAll (without_interface i) n (Dispatch.remove_interface p vs i (n, w))
        (without-KeepsAll i n) (remove_interface-Commits p vs i n w)

  pub clear_interfaces-KeepsAll : KeepsAll n ((Dispatch.clear_interfaces p vs (n, w)).1).0
  unfolding is_physical
  clear_interfaces-KeepsAll =
      let same = (clear_interfaces-Clears p vs n w).0 in (same.net_id, rw (same.kind), same.fewer)

  pub add_users-KeepsAll :
      (ranges : UidRanges) (q : ℤ) → KeepsAll n ((Dispatch.add_users p vs ranges q (n, w)).1).0
  unfolding add_to_uid_range_map is_physical
  add_users-KeepsAll ranges q = elim (add_users-Answers p vs ranges q n w) [
    | inl (_, e) ↦ rw e (KeepsAll-refl n)
    | inr (_, done) ↦
        Commits-KeepsAll (add_to_uid_range_map ranges q) n (Dispatch.add_users p vs ranges q (n, w))
          (KeepsAll-refl n) done
  ]

  pub remove_users-KeepsAll :
      (ranges : UidRanges) (q : ℤ) → KeepsAll n ((Dispatch.remove_users p vs ranges q (n, w)).1).0
  unfolding remove_from_uid_range_map is_physical
  remove_users-KeepsAll ranges q = elim (remove_users-Answers p vs ranges q n w) [
    | inl (_, e) ↦ rw e (KeepsAll-refl n)
    | inr (_, done) ↦
        Commits-KeepsAll (remove_from_uid_range_map ranges q) n
          (Dispatch.remove_users p vs ranges q (n, w)) (KeepsAll-refl n) done
  ]

  module _ (f : PhysicalState) (is : n.kind ≡ physical f) where
    write-KeepsAll : (g : PhysicalState) → KeepsAll n (record n { kind = physical g })
    unfolding is_physical
    write-KeepsAll g = (refl, rw is refl, λ x h. h)

    commit-KeepsAll :
        (g : PhysicalState) (m : Step W)
        → KeepsAll n ((commit m (λ k. record k { kind = physical g }) (n, w)).1).0
    commit-KeepsAll g m =
        Commits-KeepsAll (λ k. record k { kind = physical g }) n
          (commit m (λ k. record k { kind = physical g }) (n, w)) (write-KeepsAll g)
          (commit-Commits m (λ k. record k { kind = physical g }) n w)

    pub set_permission-KeepsAll :
        (permission : ℕ) → KeepsAll n ((Physical.set_permission p vs f permission (n, w)).1).0
    unfolding Physical.set_permission
    set_permission-KeepsAll permission = elim (Bool-cases (permission == f.permission)) [
      | inl e ↦ rw e (KeepsAll-refl n)
      | inr e ↦ elim (Bool-cases (Physical.no_interfaces p vs f n.interfaces)) [
        | inl e' ↦ rw (e, e') (write-KeepsAll _)
        | inr e' ↦ rw (e, e') (commit-KeepsAll _ _)
      ]
    ]

    pub add_as_default-KeepsAll : KeepsAll n ((Physical.add_as_default p vs f (n, w)).1).0
    unfolding Physical.add_as_default
    add_as_default-KeepsAll = elim (Bool-cases f.is_default) [
      | inl e ↦ rw e (KeepsAll-refl n)
      | inr e ↦ rw e (commit-KeepsAll _ _)
    ]

    pub remove_as_default-KeepsAll : KeepsAll n ((Physical.remove_as_default p vs f (n, w)).1).0
    unfolding Physical.remove_as_default
    remove_as_default-KeepsAll = elim (Bool-cases (not f.is_default)) [
      | inl e ↦ rw e (KeepsAll-refl n)
      | inr e ↦ rw e (commit-KeepsAll _ _)
    ]

physical_of-Holds :
    {W : Type 0} (d e : ℕ) (error : ℕ) (m : PhysicalState → Step (Network × W)) (id : ℕ)
    (n : Network) (kind : Kind) (c : Controller W)
    → ((f : PhysicalState) → n.kind ≡ physical f → KeepsAll n ((m f (n, c.world)).1).0)
    → n.kind ≡ kind
    → get_network c id ≡ some n
    → Holds d e c
    → Holds d e (physical_of error m id n kind c).1
unfolding physical_of
physical_of-Holds d e error m id n (physical f) c keeps is here k =
    run_on-Holds d e id n (m f) c here (keeps f is) k
physical_of-Holds d e error m id n _ c keeps is here k = k

pub physical_at-Holds :
    {W : Type 0} (d e : ℕ) (missing error : ℕ) (m : PhysicalState → Step (Network × W)) (id : ℕ)
    (o : Option Network) (c : Controller W)
    → ((f : PhysicalState) (n : Network) (w : W)
        → n.kind ≡ physical f
        → KeepsAll n ((m f (n, w)).1).0)
    → get_network c id ≡ o
    → Holds d e c
    → Holds d e (physical_at missing error m id o c).1
unfolding physical_at
physical_at-Holds d e missing error m id none c keeps here k = k
physical_at-Holds d e missing error m id (some n) c keeps here k =
    physical_of-Holds d e error m id n n.kind c (λ f is. keeps f n c.world is) refl here k

-- A method of PhysicalNetwork that succeeds was called on a physical network.
pub physical_at-IsDefault :
    {W : Type 0} (missing error : ℕ) (m : PhysicalState → Step (Network × W)) (id : ℕ)
    (o : Option Network) (c : Controller W)
    → 0 < missing
    → 0 < error
    → get_network c id ≡ o
    → (physical_at missing error m id o c).0 ≡ 0
    → IsDefault id c.networks
unfolding physical_at physical_of is_physical
physical_at-IsDefault missing error m id none c pos pos' here z = absurd (omega arith)
physical_at-IsDefault missing error m id (some n) c pos pos' here z =
    inr (n, here, kind_of n.kind z)
  where
    kind_of :
        (kind : Kind)
        → (physical_of error m id n kind c).0 ≡ 0
        → is_physical (record n { kind = kind }) ≡ true
    kind_of (physical f) z = refl
    kind_of _ z = absurd (omega arith)
