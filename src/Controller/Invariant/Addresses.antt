-- ===== src/Controller/Invariant/Addresses.antt =====
-- The records of addresses leave the networks alone.
use system_netd.Prelude.{
  ℕ, ◌≡◌, refl, inl, inr, Option, none, some, List, [], ◌∷◌, ◌==◌, arith, Bool-cases,
}
use system_netd.Prelude.Keys.{Name, nat_key, name_key}
use system_netd.Containers.Map
use system_netd.Containers.OrderedSet
use system_netd.Controller.{Controller}
use system_netd.Controller.Addresses.{
  add_interface_address, check_handover, number_at, after_erase, remove_from,
  remove_interface_address,
}
use system_netd.Controller.Lifecycle.Consistent.{IsConsistent}

module _ {W : Type 0} where
  abbrev SameNetworks : Controller W → Controller W → Type 0
  SameNetworks c c' = (c'.networks ≡ c.networks) × (c'.default_net_id ≡ c.default_net_id)

  check_handover-SameNetworks :
      (last : ℕ) (is : List ℕ) (c : Controller W) → SameNetworks c (check_handover last is c).1
  unfolding check_handover
  check_handover-SameNetworks last [] c = (refl, refl)
  check_handover-SameNetworks last (i ∷ is) c =
      let r = number_at (Map.find i c.ifindex_to_last_net_id) i c.ifindex_to_last_net_id in
      let c' = record c { ifindex_to_last_net_id = r.1 } in
      ground (arith, check_handover-SameNetworks last is c')

  after_erase-SameNetworks :
      (o : Option ℕ) (left : List ℕ) (c : Controller W) → SameNetworks c (after_erase o left c).1
  unfolding after_erase
  after_erase-SameNetworks none left c = (refl, refl)
  after_erase-SameNetworks (some last) left c = check_handover-SameNetworks last left c

  remove_from-SameNetworks :
      (ifindex : ℕ) (a : Name) (o : Option (List ℕ)) (c : Controller W)
      → SameNetworks c (remove_from ifindex a o c).1
  unfolding remove_from
  remove_from-SameNetworks ifindex a none c = (refl, refl)
  remove_from-SameNetworks ifindex a (some is) c =
      let left = OrderedSet.erase ifindex is in
      let c' = record c { address_to_ifindices = Map.insert a left c.address_to_ifindices } in
      ground (arith, after_erase-SameNetworks (Map.find ifindex c.ifindex_to_last_net_id) left c')

  pub add_address-IsConsistent :
      (ifindex : ℕ) (a : Name) (c : Controller W)
      → IsConsistent c
      → IsConsistent (add_interface_address ifindex a c)
  unfolding add_interface_address
  add_address-IsConsistent ifindex a c k = elim (Bool-cases (ifindex == 0)) [
    | inl e ↦ rw e k
    | inr e ↦ rw e k
  ]

  pub remove_address-IsConsistent :
      (ifindex : ℕ) (a : Name) (c : Controller W)
      → IsConsistent c
      → IsConsistent (remove_interface_address ifindex a c).1
  unfolding remove_interface_address
  remove_address-IsConsistent ifindex a c k =
      let (same, same') =
        remove_from-SameNetworks ifindex a (Map.find a c.address_to_ifindices) c in
      rw (same, same') k
