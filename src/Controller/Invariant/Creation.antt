-- ===== src/Controller/Invariant/Creation.antt =====
-- The creation of networks.
use system_netd.Prelude.{
  ℕ, zero, suc, ◌≤◌, ◌≡◌, refl, ◌∙◌, inl, inr, Bool, true, false, not, ◌||◌, Option, none, some, [],
  ltb, arith, Bool-cases, Option-cases,
}
use system_netd.Prelude.Int.{ℤ, ltb_ℤ}
use system_netd.Prelude.Keys.{nat_key, name_key}
use system_netd.Prelude.Steps.{and_then}
use system_netd.Containers.Map
use system_netd.Containers.OrderedSet
use system_netd.Platform.{Platform}
use system_netd.Network.{Network, new_physical_network, new_virtual_network}
use system_netd.Network.Physical
use system_netd.Controller.{Controller, get_network, is_valid_network, vpns, min_oem_id, max_oem_id}
use system_netd.Controller.Lifecycle.{
  create_physical_network, create_physical_oem_network, create_virtual_network, modify_fallthrough,
  fallthrough_from, enter_network, update_polling, is_regular_id, is_oem_id, new_physical_state,
  first_free, oem_result,
}
use system_netd.Controller.Lifecycle.Consistent.{IsConsistent, Consistent-new}
use system_netd.Controller.Lifecycle.Preserves.{KeepsAll, set_permission-KeepsAll}

module _ {W : Type 0} (p : Platform W) where
  fallthrough_networks :
      (id : ℕ) (add : Bool) (o : Option Network) (c : Controller W)
      → (((fallthrough_from p id add o c).1).networks ≡ c.networks)
        × (((fallthrough_from p id add o c).1).default_net_id ≡ c.default_net_id)
  unfolding fallthrough_from
  fallthrough_networks id add none c = (refl, refl)
  fallthrough_networks id add (some n) c = ground arith

  pub modify_fallthrough_networks :
      (id : ℕ) (add : Bool) (c : Controller W)
      → (((modify_fallthrough p id add c).1).networks ≡ c.networks)
        × (((modify_fallthrough p id add c).1).default_net_id ≡ c.default_net_id)
  unfolding modify_fallthrough
  modify_fallthrough_networks id add c =
      ground (arith, fallthrough_networks id add (get_network c c.default_net_id) c)

  valid-find : (id : ℕ) (c : Controller W) → is_valid_network c id ≡ false → get_network c id ≡ none
  unfolding is_valid_network
  valid-find id c h = ground (arith, Option-cases (get_network c id))

  enter_network-IsConsistent :
      (id : ℕ) (n : Network) (r : ℕ × (Network × W)) (c : Controller W)
      → get_network c id ≡ none
      → 1 ≤ id
      → n.net_id ≡ id
      → n.interfaces ≡ []
      → KeepsAll n (r.1).0
      → IsConsistent c
      → IsConsistent (enter_network p id r c).1
  unfolding enter_network update_polling OrderedSet.contains
  enter_network-IsConsistent id n (zero, (m, w)) c free pos filed empty keeps k =
      Consistent-new c.default_net_id c.networks id k m free pos (keeps.0 ∙ filed) (λ x.
        elim (Bool-cases (OrderedSet.contains x m.interfaces)) [
          | inl has ↦ absurd (cc (keeps.2 x has, empty))
          | inr lacks ↦ lacks
        ])
  enter_network-IsConsistent id n (suc e, (m, w)) c free pos filed empty keeps k = k

  pub create_physical_network-IsConsistent :
      (id permission : ℕ) (is_local : Bool) (c : Controller W)
      → IsConsistent c
      → IsConsistent (create_physical_network p id permission is_local c).1
  unfolding create_physical_network new_physical_network
  create_physical_network-IsConsistent id permission is_local c k =
      elim (Bool-cases (not (is_regular_id id || is_oem_id id))) [
        | inl e ↦ rw e k
        | inr e ↦ elim (Bool-cases (is_valid_network c id)) [
          | inl e' ↦ rw (e, e') k
          | inr e' ↦
              rw (e, e')
                (enter_network-IsConsistent id (new_physical_network id is_local)
                  (Physical.set_permission p (vpns c) (new_physical_state is_local) permission
                    (new_physical_network id is_local, c.world))
                  c (valid-find id c e') (ground arith) refl refl
                  (set_permission-KeepsAll p (vpns c) (new_physical_network id is_local) c.world
                    (new_physical_state is_local) refl permission)
                  k)
        ]
      ]

  pub create_oem-IsConsistent :
      (permission : ℕ) (c : Controller W)
      → IsConsistent c
      → IsConsistent (((create_physical_oem_network p permission c).1).1)
  unfolding create_physical_oem_network
  create_oem-IsConsistent permission c k =
      elim (Bool-cases (ltb max_oem_id (first_free max_oem_id min_oem_id c))) [
        | inl e ↦ rw e k
        | inr e ↦ rw e (
            result (first_free max_oem_id min_oem_id c) _ (
              create_physical_network-IsConsistent (first_free max_oem_id min_oem_id c) permission
                false c k))
      ]
    where
      result :
          (id : ℕ) (r : ℕ × Controller W)
          → IsConsistent r.1
          → IsConsistent (((oem_result id r).1).1)
      result id (zero, s) h = h
      result id (suc e, s) h = h

  after_fallthrough :
      (id : ℕ) (n : Network) (c : Controller W) (r : ℕ × Controller W)
      → ((r.1).networks ≡ c.networks) × ((r.1).default_net_id ≡ c.default_net_id)
      → get_network c id ≡ none
      → 1 ≤ id
      → n.net_id ≡ id
      → n.interfaces ≡ []
      → IsConsistent c
      → IsConsistent (and_then (λ s. (0, record s { networks = Map.insert id n s.networks })) r).1
  unfolding OrderedSet.contains
  after_fallthrough id n c (zero, s) (same, same') free pos filed empty k =
      rw (same, same')
        (Consistent-new c.default_net_id c.networks id k n free pos filed (λ x. rw empty refl))
  after_fallthrough id n c (suc e, s) (same, same') free pos filed empty k = rw (same, same') k

  pub create_virtual_network-IsConsistent :
      (id : ℕ) (secure : Bool) (vpn_type : ℤ) (exclude_local_routes : Bool) (c : Controller W)
      → IsConsistent c
      → IsConsistent (create_virtual_network p id secure vpn_type exclude_local_routes c).1
  unfolding create_virtual_network new_virtual_network
  create_virtual_network-IsConsistent id secure vpn_type exclude_local_routes c k =
      elim (Bool-cases (not (is_regular_id id))) [
        | inl e ↦ rw e k
        | inr e ↦ elim (Bool-cases (is_valid_network c id)) [
          | inl e' ↦ rw (e, e') k
          | inr e' ↦
              elim (Bool-cases
                (ltb_ℤ vpn_type p.native_vpn_service || ltb_ℤ p.native_vpn_oem vpn_type)) [
                  | inl e'' ↦ rw (e, e', e'') k
                  | inr e'' ↦
                      rw (e, e', e'')
                        (after_fallthrough id (new_virtual_network id secure exclude_local_routes) c
                          (modify_fallthrough p id true c) (modify_fallthrough_networks id true c)
                          (valid-find id c e') (ground arith) refl refl k)
                ]
        ]
      ]
