-- ===== src/Routing/Routes.antt =====
-- server/RouteController.cpp: the requests for routes.
pub mod Proper
pub mod Asked
use system_netd.Prelude.{
  ℕ, zero, suc, ◌+◌, ◌-◌, ◌^◌, Bool, true, false, ◌&&◌, ◌||◌, not, Option, none, some, List, [],
  ◌∷◌, bytes, leb, ◌==◌, if◌then◌else◌,
}
use system_netd.Prelude.Keys.{Name, names_equal}
use system_netd.Prelude.Steps.{Step, ◌>>◌, fail, succeed, when, for_each, on_second}
use system_netd.Errno.{efault, enodev, einval, eexist}
use system_netd.Platform.{
  TableType, interface_table, local_network_table, legacy_network_table, legacy_system_table,
}
use system_netd.RouteTables.{
  Kernel, State, route_table_local_network, route_table_legacy_network, route_table_legacy_system,
}
use system_netd.Routing.{Family, inet, inet6}
use system_netd.Routing.Prefix.{Address, Prefix, Parsed, refused, parsed, parse_prefix}
use system_netd.Routing.Networks.{with_table}

-- RTN_UNICAST, RTN_UNREACHABLE, RTN_THROW
pub data RouteType : Type 0 where
  unicast unreachable_route throw_route : RouteType

-- The message types and flags that the callers use: NETLINK_ROUTE_CREATE_FLAGS with RTM_NEWROUTE,
-- NETLINK_ROUTE_REPLACE_FLAGS with RTM_NEWROUTE, NETLINK_REQUEST_FLAGS with RTM_DELROUTE.
pub data RouteAction : Type 0 where
  create_route replace_route delete_route : RouteAction

pub record RouteRequest : Type 0 where
  pub action : RouteAction
  pub excl : Bool
  pub family : Family
  pub prefix_length : ℕ
  pub universe_scope : Bool
  pub route_type : RouteType
  pub table : ℕ
  pub destination : List ℕ
  pub oif : Option ℕ
  pub gateway : Option (List ℕ)
  pub mtu : ℕ
  pub priority : ℕ

-- Texts of addresses are read by libc, `getaddrinfo` and `inet_pton`, and by the class IPPrefix of
-- libnetdutils: its `forString`, of which the family is asked, its `==` with the default route of
-- IPv6, and its `contains` with the prefix of a text.
pub record Texts : Type 0 where
  pub get_addr_info : Name → Option Address
  pub inet_pton : Family → Name → Option (List ℕ)
  pub prefix_family : Name → Option Family
  pub is_default_route6 : Name → Bool
  pub contains : Name → Name → Bool

pub record Routes (W : Type 0) : Type 0 where
  pub send_route : RouteRequest → Step W

unfoldable pub is_create : RouteAction → Bool
is_create create_route = true
is_create _ = false

-- RTM_NEWROUTE
unfoldable pub is_new : RouteAction → Bool
is_new delete_route = false
is_new _ = true

-- IN6_IS_ADDR_LINKLOCAL
unfoldable pub is_link_local : Family → List ℕ → Bool
is_link_local inet6 (a ∷ b ∷ rest) = (a == 0xfe) && leb 128 b && leb b 191
is_link_local _ _ = false

-- The type of a route, its interface index and its gateway.
pub record Target : Type 0 where
  pub route_type : RouteType
  pub oif : Option ℕ
  pub gateway : Option (List ℕ)

pub data Aimed : Type 0 where
  not_aimed : ℕ → Aimed
  aimed : Target → Aimed

abbrev blocked : RouteType → Aimed
blocked t = aimed (record { route_type = t; oif = none; gateway = none })

unfoldable pub with_gateway : Texts → Family → Option ℕ → Option Name → Aimed
with_gateway texts family oif none =
    aimed (record { route_type = unicast; oif = oif; gateway = none })
with_gateway texts family oif (some nexthop) = elim (texts.inet_pton family nexthop) [
  | none ↦ not_aimed einval
  | some raw ↦ aimed (record { route_type = unicast; oif = oif; gateway = some raw })
]

unfoldable pub by_interface : Texts → Family → (Name → ℕ) → Option Name → Option Name → Aimed
unfolding with_gateway
by_interface texts family index none nexthop = with_gateway texts family none nexthop
by_interface texts family index (some interface) nexthop =
    if index interface == 0
    then not_aimed enodev
    else with_gateway texts family (some (index interface)) nexthop

unfoldable pub target_of : Texts → Family → (Name → ℕ) → Option Name → Option Name → Aimed
unfolding by_interface
target_of texts family index interface none = by_interface texts family index interface none
target_of texts family index interface (some nexthop) =
    if names_equal nexthop (bytes "unreachable")
    then blocked unreachable_route
    else if names_equal nexthop (bytes "throw")
    then blocked throw_route
    else by_interface texts family index interface (some nexthop)

unfoldable pub is_some : {A : Type 0} → Option A → Bool
is_some none = false
is_some (some a) = true

unfoldable pub route_request : RouteAction → ℕ → Prefix → ℕ → ℕ → Target → RouteRequest
unfolding is_create is_link_local is_some
route_request action table prefix mtu priority t = record {
  action = action;
  excl = is_create action && not (is_link_local prefix.family prefix.bytes);
  family = prefix.family;
  prefix_length = prefix.prefix_length;
  universe_scope = is_some t.gateway;
  route_type = t.route_type;
  table = table;
  destination = prefix.bytes;
  oif = t.oif;
  gateway = t.gateway;
  mtu = mtu;
  priority = priority;
}

module _ {W : Type 0} (kernel : Kernel W) (routes : Routes W) (texts : Texts) where
  unfoldable pub send_to : RouteAction → ℕ → Prefix → ℕ → ℕ → Aimed → Step W
  unfolding route_request
  send_to action table prefix mtu priority (not_aimed e) = fail e
  send_to action table prefix mtu priority (aimed t) =
      routes.send_route (route_request action table prefix mtu priority t)

  unfoldable pub send_parsed : RouteAction → ℕ → Option Name → Option Name → ℕ → ℕ → Parsed → Step W
  unfolding send_to target_of
  send_parsed action table interface nexthop mtu priority (refused e) w = fail e w
  send_parsed action table interface nexthop mtu priority (parsed prefix) w =
      send_to action table prefix mtu priority
        (target_of texts prefix.family (kernel.if_name_to_index w) interface nexthop) w

  -- The address of a route has room for 16 bytes.
  unfoldable pub modify_ip_route :
      RouteAction → ℕ → Option Name → Option Name → Option Name → ℕ → ℕ → Step W
  unfolding send_parsed parse_prefix
  modify_ip_route action table interface none nexthop mtu priority = fail efault
  modify_ip_route action table interface (some destination) nexthop mtu priority =
      send_parsed action table interface nexthop mtu priority
        (parse_prefix texts.get_addr_info 16 destination)

  -- A route that is there already is no error.
  unfoldable pub tolerate : RouteAction → Step W → Step W
  unfolding is_new
  tolerate action m w =
      let r = m w in if (r.0 == 0) || (is_new action && (r.0 == eexist)) then (0, r.1) else r

  unfoldable pub modify_route :
      RouteAction → Name → Option Name → Option Name → TableType → ℕ → ℕ → Bool → Step (State W)
  unfolding with_table modify_ip_route tolerate
  modify_route action interface destination nexthop table_type mtu priority is_local =
      let send = λ (table : ℕ). on_second (
        tolerate action
          (modify_ip_route action table (some interface) destination nexthop mtu priority)) in
      elim table_type [
        | interface_table ↦ with_table kernel interface is_local send
        | local_network_table ↦ send route_table_local_network
        | legacy_network_table ↦ send route_table_legacy_network
        | legacy_system_table ↦ send route_table_legacy_system
      ]
