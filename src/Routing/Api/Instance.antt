-- ===== src/Routing/Api/Instance.antt =====
-- The functions of RouteController as NetworkController calls them.
use system_netd.Prelude.{ℕ}
use system_netd.Prelude.Steps.{on_second}
use system_netd.Platform.{RouteController}
use system_netd.RouteTables.{Kernel, State, get_if_index}
use system_netd.Routing.{Netlink}
use system_netd.Routing.Routes.{Routes, Texts}
use system_netd.Routing.LocalRoutes.{add_route, remove_route, update_route}
use system_netd.Routing.Api.{
  add_interface_to_local_network, remove_interface_from_local_network,
  add_interface_to_physical_network, remove_interface_from_physical_network,
  add_interface_to_virtual_network, remove_interface_from_virtual_network,
  modify_physical_network_permission, add_users_to_virtual_network,
  remove_users_from_virtual_network, add_interface_to_default_network,
  remove_interface_from_default_network, add_virtual_network_fallthrough,
  remove_virtual_network_fallthrough, add_users_to_physical_network,
  remove_users_from_physical_network, add_users_to_unreachable_network,
  remove_users_from_unreachable_network,
}

unfoldable pub route_controller :
    {W : Type 0} → Kernel W → Netlink W → Routes W → Texts → ℕ → RouteController (State W)
unfolding add_interface_to_local_network remove_interface_from_local_network
    add_interface_to_physical_network remove_interface_from_physical_network
    add_interface_to_virtual_network remove_interface_from_virtual_network
    modify_physical_network_permission add_users_to_virtual_network
    remove_users_from_virtual_network add_interface_to_default_network
    remove_interface_from_default_network add_virtual_network_fallthrough
    remove_virtual_network_fallthrough add_users_to_physical_network
    remove_users_from_physical_network add_users_to_unreachable_network
    remove_users_from_unreachable_network add_route remove_route update_route get_if_index
route_controller kernel netlink routes texts local_net_id = record {
  add_interface_to_local_network = add_interface_to_local_network kernel netlink;
  remove_interface_from_local_network = remove_interface_from_local_network kernel netlink;
  add_interface_to_physical_network =
      add_interface_to_physical_network kernel netlink routes texts local_net_id;
  remove_interface_from_physical_network =
      remove_interface_from_physical_network kernel netlink local_net_id;
  add_interface_to_virtual_network = add_interface_to_virtual_network kernel netlink;
  remove_interface_from_virtual_network = remove_interface_from_virtual_network kernel netlink;
  modify_physical_network_permission =
      modify_physical_network_permission kernel netlink local_net_id;
  add_users_to_virtual_network = add_users_to_virtual_network kernel netlink;
  remove_users_from_virtual_network = remove_users_from_virtual_network kernel netlink;
  add_interface_to_default_network = add_interface_to_default_network kernel netlink;
  remove_interface_from_default_network = remove_interface_from_default_network kernel netlink;
  add_route = add_route kernel routes texts;
  remove_route = remove_route kernel routes texts;
  update_route = update_route kernel routes texts;
  add_virtual_network_fallthrough = add_virtual_network_fallthrough kernel netlink;
  remove_virtual_network_fallthrough = remove_virtual_network_fallthrough kernel netlink;
  add_users_to_physical_network = add_users_to_physical_network kernel netlink local_net_id;
  remove_users_from_physical_network =
      remove_users_from_physical_network kernel netlink local_net_id;
  add_users_to_unreachable_network =
      λ net_id users. on_second (add_users_to_unreachable_network kernel netlink net_id users);
  remove_users_from_unreachable_network =
      λ net_id users. on_second (remove_users_from_unreachable_network kernel netlink net_id users);
  get_if_index = λ s interface. get_if_index interface s.0;
}
