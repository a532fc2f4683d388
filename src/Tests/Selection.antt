-- ===== src/Tests/Selection.antt =====
-- The choice of a network in the sample state.
use system_netd.Prelude.{◌≡◌, false}
use system_netd.Controller.{get_physical_or_unreachable_network_for_user}
use system_netd.Controller.Selection.{get_network_for_connect, get_network_for_dns}
use system_netd.Controller.Selection.Best.{Least, best-Least}
use system_netd.Controller.Selection.Connect.{Usable, connect-Usable}
use system_netd.Controller.Selection.Dns.{Serves, dns-Serves}
use system_netd.Tests.Samples.{up, state, state-IsConsistent}

best-Least_example :
    Least 10001 state.networks (get_physical_or_unreachable_network_for_user state 10001)
best-Least_example = best-Least state 10001 state-IsConsistent.sorted

connect-Usable_example :
    Usable (λ v. v.secure ≡ false) state 10001 (get_network_for_connect state 10001)
connect-Usable_example = connect-Usable state 10001 state-IsConsistent

dns-Serves_example : Serves up state 10001 (get_network_for_dns up state 0 10001).0
dns-Serves_example = dns-Serves up state 10001 0 state-IsConsistent
