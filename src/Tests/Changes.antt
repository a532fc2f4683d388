-- ===== src/Tests/Changes.antt =====
-- Changes of the sample state.
use system_netd.Prelude.{ℕ, ◌+◌, ◌≤◌, ◌≡◌, ◌⊎◌, refl, true, false}
use system_netd.Network.{has_interface}
use system_netd.Containers.OrderedSet
use system_netd.Errno.{enonet}
use system_netd.Controller.{
  get_network_for_interface, is_valid_network, min_oem_id, max_oem_id, run_on,
}
use system_netd.Controller.Lifecycle.{
  set_default_network, create_physical_network, create_physical_oem_network, oem_result,
}
use system_netd.Controller.Lifecycle.FreeId.{UsedBetween, create_oem-Least}
use system_netd.Controller.Lifecycle.Switch
use system_netd.Controller.Lifecycle.Switch.{set_default-Switches}
use system_netd.Controller.Changes.{add_interface_to_network}
use system_netd.Controller.Changes.Destroyed
use system_netd.Controller.Invariant.Ownership.{add_interface-Owned}
use system_netd.Tests.Samples.{up, wlan, tun, home, vpn, state, state-IsConsistent, vpn_here}
use system_netd.Prelude.Keys.{names_equal}
use system_netd.Containers.Map
use system_netd.Network.Dispatch
use system_netd.Prelude.Steps.{commit}

set_default-Switches_example : Switch.Outcome up 0 state (set_default_network up 0 state)
set_default-Switches_example = set_default-Switches up 0 state refl

wlan_test : has_interface home wlan ≡ true
unfolding OrderedSet.contains names_equal
wlan_test = refl

tun_added_test : (add_interface_to_network up 101 tun state).0 ≡ 0
unfolding add_interface_to_network Map.find get_network_for_interface OrderedSet.contains
    names_equal run_on Dispatch.add_interface commit
tun_added_test = refl

add_interface-Owned_example :
    get_network_for_interface (add_interface_to_network up 101 tun state).1 tun ≡ 101
add_interface-Owned_example =
    add_interface-Owned up 101 tun state state-IsConsistent vpn vpn_here tun_added_test

create_oem-Least_example :
    (UsedBetween state min_oem_id (max_oem_id + 1)
      × (create_physical_oem_network up 0 state ≡ (enonet, (0, state))))
    ⊎ ((id : ℕ) × (min_oem_id ≤ id)
        × (id ≤ max_oem_id)
        × UsedBetween state min_oem_id id
        × (is_valid_network state id ≡ false)
        × (create_physical_oem_network up 0 state
            ≡ oem_result id (create_physical_network up id 0 false state)))
create_oem-Least_example = create_oem-Least state up 0
