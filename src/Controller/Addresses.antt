-- ===== src/Controller/Addresses.antt =====
-- `addInterfaceAddress` and `removeInterfaceAddress` of server/NetworkController.cpp. The unordered
-- containers are kept in rising order, so the loop meets the interfaces in that order.
pub mod Handover
use system_netd.Prelude.{
  ℕ, Bool, true, false, not, ◌&&◌, Option, none, some, List, [], ◌∷◌, ◌==◌, if◌then◌else◌,
}
use system_netd.Prelude.Keys.{Name, nat_key, name_key}
use system_netd.Containers.Map
use system_netd.Containers.Map.{Map}
use system_netd.Containers.OrderedSet
use system_netd.Controller.{Controller, is_virtual_network}

-- `m[k]` of a map to numbers: the value, 0 where there was none, and the map with that entry
unfoldable pub number_at : Option ℕ → ℕ → Map ℕ ℕ → ℕ × Map ℕ ℕ
number_at none k m = (0, Map.insert k 0 m)
number_at (some v) k m = (v, m)

unfoldable pub set_or_empty : Option (List ℕ) → List ℕ
set_or_empty none = []
set_or_empty (some s) = s

unfoldable pub is_empty : List ℕ → Bool
is_empty [] = true
is_empty (i ∷ is) = false

module _ {W : Type 0} where
  unfoldable pub add_interface_address : ℕ → Name → Controller W → Controller W
  unfolding set_or_empty
  add_interface_address ifindex address c = if ifindex == 0 then c else record c {
    address_to_ifindices =
        Map.insert address
          (OrderedSet.insert ifindex (set_or_empty (Map.find address c.address_to_ifindices)))
          c.address_to_ifindices;
  }

  -- The loop over the other interfaces with the address; `c[idx]` may add an entry.
  unfoldable pub check_handover : ℕ → List ℕ → Controller W → Bool × Controller W
  unfolding number_at
  check_handover last_net_id [] c = (true, c)
  check_handover last_net_id (idx ∷ is) c =
      let r = number_at (Map.find idx c.ifindex_to_last_net_id) idx c.ifindex_to_last_net_id in
      let c' = record c { ifindex_to_last_net_id = r.1 } in
      let rest = check_handover last_net_id is c' in
      if (last_net_id == r.0) && is_virtual_network c' r.0 then (false, c') else rest

  unfoldable pub after_erase : Option ℕ → List ℕ → Controller W → Bool × Controller W
  unfolding check_handover
  after_erase none left c = (true, c)
  after_erase (some last_net_id) left c = check_handover last_net_id left c

  unfoldable pub remove_from : ℕ → Name → Option (List ℕ) → Controller W → Bool × Controller W
  unfolding is_empty after_erase
  remove_from ifindex address none c = (true, c)
  remove_from ifindex address (some ifindices) c =
      let left = OrderedSet.erase ifindex ifindices in
      if not (OrderedSet.contains ifindex ifindices)
      then (true, c)
      else if is_empty left
      then (true, record c { address_to_ifindices = Map.erase address c.address_to_ifindices })
      else after_erase (Map.find ifindex c.ifindex_to_last_net_id) left
          (record c { address_to_ifindices = Map.insert address left c.address_to_ifindices })

  -- Whether the sockets on the address are to be destroyed, and the state.
  unfoldable pub remove_interface_address : ℕ → Name → Controller W → Bool × Controller W
  unfolding remove_from
  remove_interface_address ifindex address c =
      remove_from ifindex address (Map.find address c.address_to_ifindices) c
