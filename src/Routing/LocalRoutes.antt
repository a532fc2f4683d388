-- ===== src/Routing/LocalRoutes.antt =====
-- server/RouteController.cpp: routes and which of them are local, `addRoute`, `removeRoute` and
-- `updateRoute`.
use system_netd.Routing.Routes.{
  RouteAction, create_route, replace_route, delete_route, Texts, Routes, is_some, modify_route,
}
use system_netd.Prelude.{
  ℕ, Bool, true, false, ◌&&◌, ◌||◌, not, Option, none, some, List, [], ◌∷◌, bytes,
}
use system_netd.Prelude.Keys.{Name}
use system_netd.Prelude.Steps.{Step, ◌>>◌, when, for_each}
use system_netd.Platform.{TableType, interface_table}
use system_netd.RouteTables.{Kernel, State}
use system_netd.Routing.{inet, inet6}

abbrev pub v4_local_prefixes : List Name
v4_local_prefixes =
    bytes "169.254.0.0/16"
    ∷ bytes "100.64.0.0/10"
    ∷ bytes "10.0.0.0/8"
    ∷ bytes "172.16.0.0/12"
    ∷ bytes "192.168.0.0/16"
    ∷ []

abbrev pub v4_fixed_local_prefixes : List Name
v4_fixed_local_prefixes = bytes "224.0.0.0/24" ∷ []

unfoldable pub any_contains : Texts → Name → List Name → Bool
any_contains texts dst [] = false
any_contains texts dst (a ∷ rest) = texts.contains a dst || any_contains texts dst rest

unfoldable pub is_within_ipv4_local_prefix : Texts → Name → Bool
unfolding any_contains
is_within_ipv4_local_prefix texts dst = any_contains texts dst v4_local_prefixes

unfoldable pub is_interface_table : TableType → Bool
is_interface_table interface_table = true
is_interface_table _ = false

unfoldable pub is_local_destination : Texts → Name → Bool
unfolding is_within_ipv4_local_prefix
is_local_destination texts destination = elim (texts.prefix_family destination) [
  | none ↦ false
  | some inet6 ↦ not (texts.is_default_route6 destination)
  | some inet ↦ is_within_ipv4_local_prefix texts destination
]

unfoldable pub is_local_route : Texts → TableType → Name → Option Name → Bool
unfolding is_some is_interface_table is_local_destination
is_local_route texts table_type destination nexthop =
    not (is_some nexthop) && is_interface_table table_type && is_local_destination texts destination

module _ {W : Type 0} (kernel : Kernel W) (routes : Routes W) (texts : Texts) where
  -- The route, and for a local destination the route in the local table too.
  unfoldable pub change_route :
      RouteAction → Name → Name → Option Name → TableType → ℕ → ℕ → Step (State W)
  unfolding modify_route is_local_route
  change_route action interface destination nexthop table_type mtu priority =
      modify_route kernel routes texts action interface (some destination) nexthop table_type mtu
        priority false
      >> when (is_local_route texts table_type destination nexthop) (
          modify_route kernel routes texts action interface (some destination) nexthop table_type
            mtu priority true)

  unfoldable pub add_route : Name → Name → Option Name → TableType → ℕ → ℕ → Step (State W)
  unfolding change_route
  add_route interface destination nexthop table_type mtu priority =
      change_route create_route interface destination nexthop table_type mtu priority

  unfoldable pub remove_route : Name → Name → Option Name → TableType → ℕ → Step (State W)
  unfolding change_route
  remove_route interface destination nexthop table_type priority =
      change_route delete_route interface destination nexthop table_type 0 priority

  unfoldable pub update_route : Name → Name → Option Name → TableType → ℕ → Step (State W)
  unfolding change_route
  update_route interface destination nexthop table_type mtu =
      change_route replace_route interface destination nexthop table_type mtu 0

  unfoldable pub add_fixed_local_routes : Name → Step (State W)
  unfolding modify_route
  add_fixed_local_routes interface = for_each v4_fixed_local_prefixes (λ prefix.
      modify_route kernel routes texts create_route interface (some prefix) none interface_table 0 0
        true)
