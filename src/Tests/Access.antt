-- ===== src/Tests/Access.antt =====
-- Access to networks in the sample state, where a secure VPN holds the app with UID 10001.
use system_netd.Prelude.{◌≡◌, refl, true, false, some}
use system_netd.Network.{Network, is_virtual, applies_to_user}
use system_netd.Controller.{
  get_network, get_virtual_network_for_user, is_system_user, is_protectable, applies_to,
  get_permission_for_user,
}
use system_netd.Controller.Access.{check_user_network_access, locked_in_user, is_locked_in}
use system_netd.Controller.Lifecycle.Consistent.{IsConsistent}
use system_netd.Controller.Invariant.{run, run-init-IsConsistent}
use system_netd.Controller.{init}
use system_netd.Containers.OrderedSet
use system_netd.Errno.{eperm}
use system_netd.Tests.Samples.{up, vpn, state, history, sample_ids}
use system_netd.UidRanges
use system_netd.Fwmark.{has_permission}
use system_netd.Containers.Map

run-init-IsConsistent_example : IsConsistent (run up (init up 0) history)
run-init-IsConsistent_example = run-init-IsConsistent up sample_ids 0 history

vpn_applies_test : get_virtual_network_for_user state 10001 ≡ some vpn
unfolding get_virtual_network_for_user is_virtual applies_to_user UidRanges.has_uid
vpn_applies_test = refl

ordinary_test : is_system_user up state 10001 ≡ false
unfolding is_system_user has_permission get_permission_for_user Map.find
ordinary_test = refl

unprotected_test : is_protectable up state 10001 ≡ false
unfolding OrderedSet.contains
unprotected_test = refl

granted_test : check_user_network_access up state 10001 101 ≡ 0
unfolding check_user_network_access Map.find is_system_user has_permission get_permission_for_user
    is_virtual applies_to applies_to_user UidRanges.has_uid
granted_test = refl

refused_test : check_user_network_access up state 10001 100 ≡ eperm
unfolding check_user_network_access Map.find is_system_user has_permission get_permission_for_user
    is_virtual is_locked_in get_virtual_network_for_user applies_to_user UidRanges.has_uid
    OrderedSet.contains
refused_test = refl

locked_in_user_example :
    (n : Network) × (get_network state 101 ≡ some n)
    × (is_virtual n ≡ true)
    × (applies_to n 10001 ≡ true)
locked_in_user_example =
    locked_in_user up state 10001 101 vpn vpn_applies_test refl ordinary_test unprotected_test
      granted_test
