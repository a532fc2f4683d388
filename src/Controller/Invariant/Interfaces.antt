-- ===== src/Controller/Invariant/Interfaces.antt =====
-- The addition of interfaces: an interface is added only where no other network has it.
use system_netd.Prelude.{
  ℕ, zero, suc, ◌≡◌, refl, subst, inl, inr, false, not, ◌&&◌, Option, none, some, ◌==◌, arith,
  Bool-cases,
}
use system_netd.Prelude.Keys.{Name, nat_key, name_key, names_equal, names-equal_iff}
use system_netd.Prelude.Steps.{and_then, update}
use system_netd.Containers.Map.{Map, All-find}
use system_netd.Containers.OrderedSet
use system_netd.Platform.{Platform}
use system_netd.Network.{Network, is_physical, has_interface}
use system_netd.Network.Dispatch
use system_netd.Network.Interfaces.{Commits, with_interface, add_interface-Commits}
use system_netd.Controller.{
  Controller, get_network, run_on, vpns, netid_unset, find_interface, get_network_for_interface,
}
use system_netd.Controller.Changes.{record_ifindex, add_interface_to, add_interface_to_network}
use system_netd.Controller.Lifecycle.Consistent.{
  OnlyAt, Filed, IsConsistent, Keeps, Consistent-replace,
}
use system_netd.Controller.Changes.Owner.{find_interface_cases}

pub only_free_interface :
    {W : Type 0} (id : ℕ) (x : Name) (c : Controller W)
    → IsConsistent c
    → (not (get_network_for_interface c x == netid_unset)
        && not (get_network_for_interface c x == id))
      ≡ false
    → OnlyAt id x c.networks
unfolding get_network_for_interface
only_free_interface id x c k free = elim (find_interface_cases c.networks x k.sorted k.filed) [
  | inl (_, absent) ↦ λ j m e has. absurd (cc (absent j m e))
  | inr (n, e, has) ↦
      let filed = All-find Filed (find_interface c.networks x) n c.networks k.filed e in
      let same : find_interface c.networks x ≡ id = ground arith in
      k.exclusive id n x (rw (← same) e) has
]

with-Keeps :
    (ns : Map ℕ Network) (id : ℕ) (x : Name) (n : Network)
    → OnlyAt id x ns
    → Keeps ns id n (with_interface x n)
unfolding is_physical
with-Keeps ns id x n only = elim (Bool-cases (has_interface n x)) [
  | inl has ↦ rw has (record { net_id = refl; class = refl; interfaces = λ y h. inl h })
  | inr lacks ↦ rw lacks (record {
    net_id = refl;
    class = refl;
    interfaces = λ y h. elim (Bool-cases (names_equal x y)) [
      | inl same ↦ inr (subst (λ z. OnlyAt id z ns) ((names-equal_iff x y).0 same) only)
      | inr other ↦ inl (ground (arith, h, other, OrderedSet.contains-insert x y n.interfaces))
    ];
  })
]

module _ {W : Type 0} (p : Platform W) where
  added-Keeps :
      (ns : Map ℕ Network) (id : ℕ) (x : Name) (n : Network) (r : ℕ × (Network × W))
      → OnlyAt id x ns
      → Commits (with_interface x) n r
      → Keeps ns id n (r.1).0
  added-Keeps ns id x n r only (inl (_, e)) = rw e (with-Keeps ns id x n only)
  added-Keeps ns id x n r only (inr (_, e)) =
      rw e (record { net_id = refl; class = refl; interfaces = λ y h. inl h })

  recorded :
      (id : ℕ) (x : Name) (r : ℕ × Controller W)
      → IsConsistent r.1
      → IsConsistent (and_then (update (record_ifindex p id x)) r).1
  unfolding record_ifindex
  recorded id x (zero, c) k = ground (arith, k)
  recorded id x (suc e, c) k = k

  add_interface_to-IsConsistent :
      (id : ℕ) (x : Name) (o : Option Network) (c : Controller W)
      → get_network c id ≡ o
      → IsConsistent c
      → IsConsistent (add_interface_to p id x o c).1
  unfolding add_interface_to run_on
  add_interface_to-IsConsistent id x none c here k = k
  add_interface_to-IsConsistent id x (some n) c here k =
      elim (Bool-cases (
        not (get_network_for_interface c x == netid_unset)
        && not (get_network_for_interface c x == id))) [
          | inl taken ↦ rw taken k
          | inr free ↦
              let add = Dispatch.add_interface p (vpns c) x in
              let r = add (n, c.world) in
              rw free (
                recorded id x (run_on id n add c) (
                  Consistent-replace c.default_net_id c.networks id k n (r.1).0 here (
                    added-Keeps c.networks id x n r (only_free_interface id x c k free)
                      (add_interface-Commits p (vpns c) x n c.world))))
        ]

  pub add_interface-IsConsistent :
      (id : ℕ) (x : Name) (c : Controller W)
      → IsConsistent c
      → IsConsistent (add_interface_to_network p id x c).1
  unfolding add_interface_to_network
  add_interface-IsConsistent id x c k =
      add_interface_to-IsConsistent id x (get_network c id) c refl k
