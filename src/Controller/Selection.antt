-- ===== src/Controller/Selection.antt =====
-- The network that a user's sockets and DNS queries go to: `getNetworkForUser`,
-- `getNetworkForConnectLocked`, `getNetworkForDnsLocked` and `getNetworkContext`.
pub mod Best
pub mod Virtual
pub mod Connect
pub mod Dns
pub mod Context
use system_netd.Prelude.{ℕ, Bool, true, false, not, ◌&&◌, Option, none, some, ◌==◌, if◌then◌else◌}
use system_netd.Fwmark.{Fwmark, empty_mark, int_value, permission_system}
use system_netd.Platform.{Platform}
use system_netd.Network.{Network, is_virtual}
use system_netd.Controller.{
  Controller, get_network, get_permission_for_user, can_protect, get_virtual_network_for_user,
  get_physical_or_unreachable_network_for_user, netid_unset,
}
use system_netd.Controller.Access.{check_user_network_access}

unfoldable pub net_id_or : Option Network → ℕ → ℕ
net_id_or none fallback = fallback
net_id_or (some n) fallback = n.net_id

-- a VPN that may be bypassed
unfoldable pub bypassable : Option Network → Option Network
bypassable none = none
bypassable (some v) = if v.secure then none else some v

-- `struct android_net_context`
pub record NetContext : Type 0 where
  pub app_net_id : ℕ
  pub app_mark : ℕ
  pub dns_net_id : ℕ
  pub dns_mark : ℕ
  pub uid : ℕ

unfoldable pub is_none : Option Network → Bool
is_none none = true
is_none (some n) = false

unfoldable pub mark_for_dns : ℕ → Bool → ℕ
unfolding int_value empty_mark
mark_for_dns net_id explicitly_selected = int_value (record empty_mark {
  net_id = net_id;
  explicitly_selected = explicitly_selected;
  protected_from_vpn = true;
  permission = permission_system;
})

module _ {W : Type 0} where
  -- the app's default network, or else the system's
  unfoldable pub get_app_default : Controller W → ℕ → ℕ
  unfolding net_id_or
  get_app_default c uid =
      net_id_or (get_physical_or_unreachable_network_for_user c uid) c.default_net_id

  unfoldable pub get_network_for_user : Controller W → ℕ → ℕ
  unfolding net_id_or get_app_default
  get_network_for_user c uid =
      net_id_or (get_virtual_network_for_user c uid) (get_app_default c uid)

  unfoldable pub get_network_for_connect : Controller W → ℕ → ℕ
  unfolding net_id_or get_app_default bypassable
  get_network_for_connect c uid =
      net_id_or (bypassable (get_virtual_network_for_user c uid)) (get_app_default c uid)

module _ {W : Type 0} (p : Platform W) where
  -- A network that the user asked for: a VPN without DNS servers is given up for the default.
  dns_for_selected : Controller W → ℕ → ℕ → Option Network → ℕ
  dns_for_selected c net_id default_net_id none = net_id
  dns_for_selected c net_id default_net_id (some n) =
      if is_virtual n && not (p.resolv_has_nameservers c.world net_id)
      then default_net_id
      else net_id

  dns_for_vpn : Controller W → ℕ → Option Network → ℕ
  dns_for_vpn c default_net_id none = default_net_id
  dns_for_vpn c default_net_id (some v) =
      if p.resolv_has_nameservers c.world v.net_id then v.net_id else default_net_id

  -- The netId that `*netId` is set to, and the mark that is returned.
  unfoldable pub get_network_for_dns : Controller W → ℕ → ℕ → ℕ × ℕ
  unfolding dns_for_selected dns_for_vpn mark_for_dns is_none get_app_default
  get_network_for_dns c net_id uid =
      let default_net_id = get_app_default c uid in
      let selected = dns_for_selected c net_id default_net_id (get_network c net_id) in
      let through_vpn = dns_for_vpn c default_net_id (get_virtual_network_for_user c uid) in
      if net_id == netid_unset && is_none (get_virtual_network_for_user c uid)
      then (default_net_id, mark_for_dns default_net_id true)
      else if check_user_network_access p c uid net_id == 0
      then (selected, mark_for_dns selected true)
      else (through_vpn, mark_for_dns through_vpn false)

  unfoldable pub get_network_context : Controller W → ℕ → ℕ → NetContext
  unfolding get_network_for_dns get_network_for_connect int_value empty_mark
  get_network_context c net_id uid =
      let explicitly_selected = not (net_id == netid_unset) in
      let app_net_id = if explicitly_selected then net_id else get_network_for_connect c uid in
      let dns = get_network_for_dns c net_id uid in
      record {
        app_net_id = app_net_id;
        app_mark = int_value (record empty_mark {
          net_id = app_net_id;
          explicitly_selected = explicitly_selected;
          protected_from_vpn = explicitly_selected && can_protect p c uid;
          permission = get_permission_for_user p c uid;
        });
        dns_net_id = dns.0;
        dns_mark = dns.1;
        uid = uid;
      }
