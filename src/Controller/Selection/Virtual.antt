-- ===== src/Controller/Selection/Virtual.antt =====
-- `getVirtualNetworkForUserLocked` of server/NetworkController.cpp: the VPN of a user.
use system_netd.Prelude.{
  ℕ, ◌≡◌, inl, inr, true, false, ◌&&◌, Option, none, some, [], ◌∷◌, arith, Bool-cases, All,
}
use system_netd.Prelude.Keys.{nat_key}
use system_netd.Containers.Map
use system_netd.Containers.Map.{Map, Sorted, find_further, find_head}
use system_netd.Network.{Network, is_virtual}
use system_netd.Controller.{Controller, applies_to, find_virtual, get_virtual_network_for_user}

abbrev pub Takes : ℕ → Network → Type 0
Takes uid n = (is_virtual n ≡ true) × (applies_to n uid ≡ true)

abbrev pub Found : ℕ → Map ℕ Network → Option Network → Type 0
Found uid ns none = All (λ e. is_virtual e.1 && applies_to e.1 uid ≡ false) ns
Found uid ns (some v) = ((i : ℕ) × (Map.find i ns ≡ some v)) × Takes uid v

Found-further :
    (i uid : ℕ) (n : Network) (ns : Map ℕ Network) (o : Option Network)
    → Sorted ((i, n) ∷ ns)
    → is_virtual n && applies_to n uid ≡ false
    → Found uid ns o
    → Found uid ((i, n) ∷ ns) o
Found-further i uid n ns none s not_this found = (not_this, found)
Found-further i uid n ns (some v) s not_this ((j, here), takes) =
    ((j, find_further i j n v ns s.0 here), takes)

find_virtual-Found : (ns : Map ℕ Network) (uid : ℕ) → Sorted ns → Found uid ns (find_virtual ns uid)
unfolding find_virtual
find_virtual-Found [] uid s = tt
find_virtual-Found ((i, n) ∷ ns) uid s = elim (Bool-cases (is_virtual n && applies_to n uid)) [
  | inl this ↦ rw this ((i, find_head i n ns), ground (arith, this))
  | inr other ↦
      rw other
        (Found-further i uid n ns (find_virtual ns uid) s other (find_virtual-Found ns uid s.1))
]

module _ {W : Type 0} (c : Controller W) (uid : ℕ) (s : Sorted c.networks) where
  -- In a sorted map of networks: the network that is found is in the map, is a VPN, and has a range
  -- with the user; and if none is found, no VPN of the map has one.
  pub virtual-Found : Found uid c.networks (get_virtual_network_for_user c uid)
  unfolding get_virtual_network_for_user
  virtual-Found = find_virtual-Found c.networks uid s
