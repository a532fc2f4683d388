-- ===== src/Platform.antt =====
-- What the controllers call: RouteController's functions (server/RouteController.h), SockDiag, the
-- resolver, and constants of other repositories (INetd.aidl, private/android_filesystem_config.h).
-- The state of all of them is one type `W`, passed on by each call.
use system_netd.Prelude.{ℕ, Bool, Option}
use system_netd.Prelude.Int.{ℤ}
use system_netd.Prelude.Keys.{Name}
use system_netd.Prelude.Steps.{Step}
use system_netd.Containers.Map.{Map}
use system_netd.UidRanges.{UidRanges}

abbrev pub UidRangeMap : Type 0
UidRangeMap = Map ℤ UidRanges

-- `RouteController::TableType`
pub data TableType : Type 0 where
  interface_table local_network_table legacy_network_table legacy_system_table : TableType

pub record RouteController (W : Type 0) : Type 0 where
  pub add_interface_to_local_network : ℕ → Name → Step W
  pub remove_interface_from_local_network : ℕ → Name → Step W
  pub add_interface_to_physical_network : ℕ → Name → ℕ → UidRangeMap → Bool → Step W
  pub remove_interface_from_physical_network : ℕ → Name → ℕ → UidRangeMap → Bool → Step W
  pub add_interface_to_virtual_network : ℕ → Name → Bool → UidRangeMap → Bool → Step W
  pub remove_interface_from_virtual_network : ℕ → Name → Bool → UidRangeMap → Bool → Step W
  pub modify_physical_network_permission : ℕ → Name → ℕ → ℕ → Bool → Step W
  pub add_users_to_virtual_network : ℕ → Name → Bool → UidRangeMap → Bool → Step W
  pub remove_users_from_virtual_network : ℕ → Name → Bool → UidRangeMap → Bool → Step W
  pub add_interface_to_default_network : Name → ℕ → Step W
  pub remove_interface_from_default_network : Name → ℕ → Step W
  pub add_route : Name → Name → Option Name → TableType → ℕ → ℕ → Step W
  pub remove_route : Name → Name → Option Name → TableType → ℕ → Step W
  pub update_route : Name → Name → Option Name → TableType → ℕ → Step W
  pub add_virtual_network_fallthrough : ℕ → Name → ℕ → Step W
  pub remove_virtual_network_fallthrough : ℕ → Name → ℕ → Step W
  pub add_users_to_physical_network : ℕ → Name → UidRangeMap → Bool → Step W
  pub remove_users_from_physical_network : ℕ → Name → UidRangeMap → Bool → Step W
  pub add_users_to_unreachable_network : ℕ → UidRangeMap → Step W
  pub remove_users_from_unreachable_network : ℕ → UidRangeMap → Step W
  pub get_if_index : W → Name → ℕ

pub record Platform (W : Type 0) : Type 0 where
  pub routes : RouteController W
  pub open_sock_diag : Step W
  pub destroy_sockets_lacking_permission : ℕ → ℕ → Step W
  pub resolv_has_nameservers : W → ℕ → Bool
  pub resume_polling : W → W
  pub suspend_polling : W → W
  pub local_net_id : ℕ
  pub dummy_net_id : ℕ
  pub unreachable_net_id : ℕ
  pub first_application_uid : ℕ
  pub aid_vpn : ℕ
  pub native_vpn_service : ℤ
  pub native_vpn_oem : ℤ
