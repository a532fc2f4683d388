-- ===== src/Controller/Changes/Destroyed.antt =====
-- What is left after `destroyNetwork` of server/NetworkController.cpp.
use system_netd.Prelude.{ℕ, ◌≡◌, ◌⊎◌, true, false, ◌||◌, none, ◌==◌, if◌then◌else◌, All}
use system_netd.Prelude.Keys.{nat_key}
use system_netd.Containers.Map
use system_netd.Containers.Map.{Map}
use system_netd.Errno.{einval, enonet}
use system_netd.Platform.{Platform}
use system_netd.Network.{Network}
use system_netd.Network.Physical
use system_netd.Network.Dispatch
use system_netd.Controller.{Controller, get_network, netid_unset}
use system_netd.Controller.Lifecycle.Elsewhere.{Elsewhere}
use system_netd.Controller.Changes.{destroy_network}

-- No interface index is recorded for the network.
abbrev pub Forgotten : ℕ → Map ℕ ℕ → Type 0
Forgotten id m = All (λ e. (e.1 == id) ≡ false) m

-- The network is gone, the others are as they were, it is not the default any more, and no
-- interface index is recorded for it.
pub record Destroyed {W : Type 0} (id : ℕ) (c c' : Controller W) : Type 0 where
  pub networks : (j : ℕ) → get_network c' j ≡ (if id == j then none else get_network c j)
  pub default_net_id :
      c'.default_net_id ≡ (if c.default_net_id == id then netid_unset else c.default_net_id)
  pub forgotten : Forgotten id c'.ifindex_to_last_net_id

-- Before the network is taken out of the maps.
record Detached {W : Type 0} (id : ℕ) (c c' : Controller W) : Type 0 where
  others : (j : ℕ) → id == j ≡ false → get_network c' j ≡ get_network c j
  default_net_id :
      c'.default_net_id ≡ (if c.default_net_id == id then netid_unset else c.default_net_id)

module _ {W : Type 0} (p : Platform W) (id : ℕ) where
  abbrev pub Outcome : Controller W → Type 0
  Outcome c =
      (((id == p.local_net_id || id == p.unreachable_net_id) ≡ true)
        × (destroy_network p id c ≡ (einval, c)))
      ⊎ ((get_network c id ≡ none) × (destroy_network p id c ≡ (enonet, c)))
      ⊎ (((id == p.local_net_id || id == p.unreachable_net_id) ≡ false)
          × Destroyed id c (destroy_network p id c).1)
