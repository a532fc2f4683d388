-- ===== src/Tests/Requests.antt =====
-- Requests on the sample state.
use system_netd.Prelude.{
  ℕ, ◌≡◌, ◌≢◌, All, Any, ◌↔◌, ◌⊎◌, refl, false, not, ◌&&◌, ◌||◌, none, some, List, [], ◌∷◌,
  if◌then◌else◌, bytes,
}
use system_netd.Prelude.Keys.{Name, names_equal}
use system_netd.Errno.{enonet}
use system_netd.Network.{Network, is_virtual}
use system_netd.Controller.{
  Controller, get_network, get_permission_for_user, is_protectable, is_virtual_network,
}
use system_netd.Controller.Requests.{
  UidRangeConfig, route_add, set_permission_for_users, allow_protect, deny_protect,
  set_network_allowlist, modify_route,
}
use system_netd.Controller.Requests.Granted.{listed, users-Granted}
use system_netd.Controller.Requests.Listed.{requested, with_allowed, allowlist-Listed}
use system_netd.Controller.Requests.Routes.{Reached, Refused, modify_route-Outcome}
use system_netd.Controller.Addresses.{remove_interface_address}
use system_netd.Controller.Addresses.Handover.{HandsOver, remove_address-HandsOver}
use system_netd.Tests.Samples.{up, wlan, state, vpn_users, state-IsConsistent}
use system_netd.Containers.Map
use system_netd.Containers.OrderedSet

abbrev users : List ℕ
users = 10001 ∷ 10002 ∷ []

users-Granted_example :
    (get_permission_for_user up (set_permission_for_users 1 users state) 10002
      ≡ (if listed 10002 users then 1 else get_permission_for_user up state 10002))
    × (is_protectable up (allow_protect users state) 10002
        ≡ (listed 10002 users || is_protectable up state 10002))
    × (is_protectable up (deny_protect users state) 10002
        ≡ (not (listed 10002 users) && is_protectable up state 10002))
users-Granted_example = users-Granted up users state 10002 1

abbrev configs : List UidRangeConfig
configs = record { net_id = 100; uid_ranges = vpn_users.ranges } ∷ []

allowlist-Listed_example :
    (Any (λ config. get_network state config.net_id ≡ none) configs
      × (set_network_allowlist configs state ≡ (enonet, state)))
    ⊎ (All (λ config. get_network state config.net_id ≢ none) configs
        × ((set_network_allowlist configs state).0 ≡ 0)
        × ((id : ℕ)
            → get_network (set_network_allowlist configs state).1 id
              ≡ with_allowed (requested id configs none) (get_network state id)))
allowlist-Listed_example = allowlist-Listed configs state

abbrev everywhere : Name
everywhere = bytes "0.0.0.0/0"

modify_route-Outcome_example :
    ((n : Network) × (get_network state 100 ≡ some n)
      × Reached up 100 wlan everywhere none route_add false 1000 0 state n
          (modify_route up 100 wlan everywhere none route_add false 1000 0 state))
    ⊎ Refused up 100 wlan everywhere none route_add false 1000 0 state
        (modify_route up 100 wlan everywhere none route_add false 1000 0 state)
modify_route-Outcome_example =
    modify_route-Outcome up 100 wlan everywhere none route_add false 1000 0 state state-IsConsistent

-- Two interfaces with one address, last on the same VPN.
abbrev shared : Controller ℕ
shared = record state {
  ifindex_to_last_net_id = (7, 101) ∷ (8, 101) ∷ [];
  address_to_ifindices = (bytes "10.0.0.1", 7 ∷ 8 ∷ []) ∷ [];
}

remove_address-HandsOver_example :
    ((remove_interface_address 7 (bytes "10.0.0.1") shared).0 ≡ false)
    ↔ HandsOver 7 (bytes "10.0.0.1") shared
remove_address-HandsOver_example = remove_address-HandsOver 7 (bytes "10.0.0.1") shared

handover_test : (remove_interface_address 7 (bytes "10.0.0.1") shared).0 ≡ false
unfolding remove_interface_address Map.find names_equal OrderedSet.contains OrderedSet.erase
    is_virtual_network is_virtual
handover_test = refl
