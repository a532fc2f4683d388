-- ===== src/Tests/Networks.antt =====
-- The methods of the network classes on concrete networks, with calls that succeed and that fail.
use system_netd.Prelude.{◌&&◌, []}
use system_netd.Prelude.Int.{pos}
use system_netd.Network.{is_valid_sub_priority, can_add_uid_ranges}
use system_netd.Network.Dispatch.{add_interface, remove_interface, add_users, remove_users}
use system_netd.Network.Interfaces.{
  Commits, with_interface, without_interface, interface_changes-Commit,
}
use system_netd.Network.Users.{Outcome, user_changes-Answer}
use system_netd.Network.Held.{Added, Removed}
use system_netd.Network.RangeMap.{InOrder}
use system_netd.Tests.Samples.{up, tun, vpn_users, vpn}

interface_changes-Commit_example :
    Commits (with_interface tun) vpn (add_interface up [] tun (vpn, 0))
    × Commits (without_interface tun) vpn (remove_interface up [] tun (vpn, 0))
interface_changes-Commit_example = interface_changes-Commit up [] tun vpn 0

vpn-InOrder : InOrder vpn.uid_range_map
vpn-InOrder = record { sorted = (tt, tt); rising = ((tt, tt), tt) }

user_changes-Answer_example :
    Outcome
      (is_valid_sub_priority vpn (pos 0) && can_add_uid_ranges vpn_users)
      (Added vpn_users (pos 0) vpn)
      (vpn, 0)
      (add_users up [] vpn_users (pos 0) (vpn, 0))
    × Outcome
        (is_valid_sub_priority vpn (pos 0))
        (Removed vpn_users (pos 0) vpn)
        (vpn, 0)
        (remove_users up [] vpn_users (pos 0) (vpn, 0))
user_changes-Answer_example = user_changes-Answer up [] vpn_users (pos 0) vpn 0 vpn-InOrder (tt, tt)
