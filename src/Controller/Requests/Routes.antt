-- ===== src/Controller/Requests/Routes.antt =====
-- When `modifyRoute` of server/NetworkController.cpp reaches the routing tables.
use system_netd.Prelude.{
  ℕ, ◌≡◌, ◌≢◌, refl, ◌⊎◌, inl, inr, Bool, true, false, Option, none, some, ◌==◌, arith,
  if◌then◌else◌, Bool-cases, Option-cases,
}
use system_netd.Prelude.Keys.{Name, nat_key}
use system_netd.Containers.Map.{All-find}
use system_netd.Errno.{enonet, enodev, enoent}
use system_netd.Platform.{Platform}
use system_netd.Network.{Network, has_interface}
use system_netd.Controller.{
  Controller, get_network, is_valid_network, is_some_network, get_network_for_interface,
  netid_unset,
}
use system_netd.Controller.Lifecycle.Consistent.{IsConsistent, Filed}
use system_netd.Controller.Changes.Owner.{interface-Owner}
use system_netd.Controller.Requests.{RouteOperation, table_type, route_call, modify_route}

module _ {W : Type 0} (p : Platform W) (id : ℕ) (x dst : Name) (hop : Option Name)
    (op : RouteOperation) (legacy : Bool) (uid mtu : ℕ) (c : Controller W) where
  -- The network has the interface, and the call is made, with the table for the user; its errno and
  -- its effect on the rest of the system are the result's, and nothing else changes.
  abbrev pub Reached : Network → ℕ × Controller W → Type 0
  Reached n r =
      let call = route_call p op x dst hop (table_type p c id legacy uid) mtu c.world in
      (has_interface n x ≡ true) × (r ≡ (call.0, record c { world = call.1 }))

  -- Nothing is done: the network does not exist, or does not have the interface, which no network
  -- has, or another one.
  abbrev pub Refused : ℕ × Controller W → Type 0
  Refused r =
      ((get_network c id ≡ none) × (r ≡ (enonet, c)))
      ⊎ ((n : Network) × (get_network c id ≡ some n)
          × (has_interface n x ≡ false)
          × (r ≡ (if get_network_for_interface c x == netid_unset then enodev else enoent, c)))

  -- In a consistent state, a route is changed only on an interface of the network that the caller
  -- names, and in every other case nothing changes: -ENONET if the network does not exist, -ENODEV
  -- if no network has the interface, -ENOENT if another network has it.
  pub modify_route-Outcome :
      IsConsistent c
      → ((n : Network) × (get_network c id ≡ some n)
          × Reached n (modify_route p id x dst hop op legacy uid mtu c))
        ⊎ Refused (modify_route p id x dst hop op legacy uid mtu c)
  unfolding modify_route is_valid_network is_some_network
  modify_route-Outcome k = elim (Option-cases (get_network c id)) [
    | inl missing ↦ inr (inl (missing, rw missing refl))
    | inr (n, here) ↦ elim (Bool-cases (has_interface n x)) [
      | inl has ↦
          let owner = (interface-Owner x c id n k here).1 has in
          let pos = (All-find Filed id n c.networks k.filed here).1 in
          inl (n, here, (has, rw here (ground (arith, owner, pos))))
      | inr lacks ↦
          let stranger : get_network_for_interface c x ≢ id =
            λ owner. cc ((interface-Owner x c id n k here).0 owner, lacks) in
          inr (inr (n, here, lacks, rw here (ground (arith, stranger))))
    ]
  ]
