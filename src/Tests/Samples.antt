-- ===== src/Tests/Samples.antt =====
-- A system whose calls all succeed, or all fail, and count; and the state after a history.
use system_netd.Prelude.{
  ℕ, ◌+◌, ◌≡◌, refl, subst, Bool, true, false, none, some, List, [], ◌∷◌, bytes, arith,
}
use system_netd.Prelude.Int.{pos}
use system_netd.Prelude.Keys.{Name, names_equal}
use system_netd.Containers.Map.{Map}
use system_netd.Prelude.Steps.{Step, commit, for_each}
use system_netd.UidRanges.{UidRanges}
use system_netd.Platform.{RouteController, Platform}
use system_netd.Network.{
  Network, Kind, physical, virtual, unreachable, dummy, local, new_dummy_network,
  new_unreachable_network, new_local_network, new_physical_network, is_physical, is_virtual,
  new_virtual_network, can_add_users, is_valid_sub_priority, can_add_uid_ranges,
  add_to_uid_range_map,
}
use system_netd.Controller.{
  get_network, Controller, init, is_valid_network, get_network_for_interface, run_on,
  virtual_net_ids,
}
use system_netd.Controller.Lifecycle.Consistent.{IsConsistent}
use system_netd.Controller.Invariant.{
  Call, sets_default, creates_physical, creates_virtual, adds_interface, adds_users, step, run,
  HasSystemIds, run-init-IsConsistent,
}
use system_netd.Containers.Map
use system_netd.Controller.Lifecycle.{
  create_physical_network, set_default_network, create_virtual_network,
}
use system_netd.Network.Physical
use system_netd.Controller.Changes.{add_interface_to_network, add_users_to_network}
use system_netd.Containers.OrderedSet
use system_netd.Network.Dispatch
use system_netd.UidRanges

-- A call that returns the errno and counts.
abbrev counts : ℕ → Step ℕ
counts e w = (e, w + 1)

abbrev pub sample_routes : ℕ → RouteController ℕ
sample_routes e = record {
  add_interface_to_local_network = λ a b. counts e;
  remove_interface_from_local_network = λ a b. counts e;
  add_interface_to_physical_network = λ a b c d f. counts e;
  remove_interface_from_physical_network = λ a b c d f. counts e;
  add_interface_to_virtual_network = λ a b c d f. counts e;
  remove_interface_from_virtual_network = λ a b c d f. counts e;
  modify_physical_network_permission = λ a b c d f. counts e;
  add_users_to_virtual_network = λ a b c d f. counts e;
  remove_users_from_virtual_network = λ a b c d f. counts e;
  add_interface_to_default_network = λ a b. counts e;
  remove_interface_from_default_network = λ a b. counts e;
  add_route = λ a b c d f g. counts e;
  remove_route = λ a b c d f. counts e;
  update_route = λ a b c d f. counts e;
  add_virtual_network_fallthrough = λ a b c. counts e;
  remove_virtual_network_fallthrough = λ a b c. counts e;
  add_users_to_physical_network = λ a b c d. counts e;
  remove_users_from_physical_network = λ a b c d. counts e;
  add_users_to_unreachable_network = λ a b. counts e;
  remove_users_from_unreachable_network = λ a b. counts e;
  get_if_index = λ w a. 7;
}

abbrev pub sample_platform : ℕ → Platform ℕ
sample_platform e = record {
  routes = sample_routes e;
  open_sock_diag = counts e;
  destroy_sockets_lacking_permission = λ a b. counts e;
  resolv_has_nameservers = λ w id. true;
  resume_polling = λ w. w;
  suspend_polling = λ w. w;
  local_net_id = 99;
  dummy_net_id = 51;
  unreachable_net_id = 52;
  first_application_uid = 10000;
  aid_vpn = 1016;
  native_vpn_service = pos 1;
  native_vpn_oem = pos 4;
}

-- the system whose calls succeed
abbrev pub up : Platform ℕ
up = sample_platform 0

abbrev pub wlan : Name
wlan = bytes "wlan0"

abbrev pub tun : Name
tun = bytes "tun0"

-- the UIDs of the VPN
abbrev pub vpn_users : UidRanges
vpn_users = record { ranges = record { start = pos 10000; stop = pos 10100 } ∷ [] }

abbrev pub history : List Call
history =
    creates_physical 100 0 false
    ∷ adds_interface 100 wlan
    ∷ sets_default 100
    ∷ creates_virtual 101 true (pos 1) false
    ∷ adds_users 101 vpn_users (pos 0)
    ∷ []

abbrev pub home : Network
home = record {
  net_id = 100;
  interfaces = wlan ∷ [];
  uid_range_map = [];
  secure = false;
  allowed_uids = none;
  kind = physical (record { permission = 0; is_default = true; is_local_network = false });
}

abbrev pub vpn : Network
vpn = record {
  net_id = 101;
  interfaces = [];
  uid_range_map = (pos 0, vpn_users) ∷ [];
  secure = true;
  allowed_uids = none;
  kind = virtual false;
}

abbrev bare : ℕ → Network
bare id = record {
  net_id = id;
  interfaces = [];
  uid_range_map = [];
  secure = false;
  allowed_uids = none;
  kind = unreachable;
}

-- A state with networks beside the system's.
abbrev with_networks : ℕ → Map ℕ Network → Map ℕ ℕ → ℕ → Controller ℕ
with_networks default_net_id networks last_net_ids world = record {
  default_net_id = default_net_id;
  networks =
      (51, record (bare 51) { kind = dummy; interfaces = bytes "dummy0" ∷ [] })
      ∷ (52, bare 52)
      ∷ (99, record (bare 99) { kind = local })
      ∷ networks;
  users = [];
  protectable_users = 1016 ∷ [];
  ifindex_to_last_net_id = last_net_ids;
  address_to_ifindices = [];
  world = world;
}

abbrev physical_kind : Bool → Kind
physical_kind is_default =
    physical (record { permission = 0; is_default = is_default; is_local_network = false })

abbrev new_vpn : Network
new_vpn = record vpn { uid_range_map = [] }

-- the state after the history, and on the way there
abbrev pub state : Controller ℕ
state = with_networks 100 ((100, home) ∷ (101, vpn) ∷ []) ((7, 100) ∷ []) 3

abbrev at_create : Controller ℕ
at_create = with_networks 0 ((100, record (bare 100) { kind = physical_kind false }) ∷ []) [] 0

abbrev at_interface : Controller ℕ
at_interface =
    with_networks 0 ((100, record home { kind = physical_kind false }) ∷ []) ((7, 100) ∷ []) 1

abbrev at_default : Controller ℕ
at_default = with_networks 100 ((100, home) ∷ []) ((7, 100) ∷ []) 2

abbrev at_vpn : Controller ℕ
at_vpn = with_networks 100 ((100, home) ∷ (101, new_vpn) ∷ []) ((7, 100) ∷ []) 3

start_test : init up 0 ≡ with_networks 0 [] [] 0
unfolding init Map.insert new_dummy_network new_unreachable_network new_local_network
start_test = refl

create_test : step up (with_networks 0 [] [] 0) (creates_physical 100 0 false) ≡ at_create
unfolding step create_physical_network is_valid_network Map.find Physical.set_permission Map.insert
    new_physical_network is_physical
create_test = refl

interface_test : step up at_create (adds_interface 100 wlan) ≡ at_interface
unfolding step add_interface_to_network Map.find get_network_for_interface OrderedSet.contains
    names_equal run_on Dispatch.add_interface commit Map.insert OrderedSet.insert
interface_test = refl

default_test : step up at_interface (sets_default 100) ≡ at_default
unfolding step set_default_network Map.find run_on Physical.add_as_default commit for_each
    virtual_net_ids is_virtual Map.insert
default_test = refl

vpn_test : step up at_default (creates_virtual 101 true (pos 1) false) ≡ at_vpn
unfolding step create_virtual_network is_valid_network Map.find is_physical for_each
    Physical.modify_fallthrough_of Map.insert new_virtual_network
vpn_test = refl

users_test : step up at_vpn (adds_users 101 vpn_users (pos 0)) ≡ state
unfolding step add_users_to_network Map.find can_add_users run_on Map.insert Dispatch.add_users
    is_valid_sub_priority can_add_uid_ranges UidRanges.overlaps_self commit for_each
    add_to_uid_range_map
users_test = refl

pub sample_ids : HasSystemIds up
sample_ids = record {
  local_set = omega arith;
  dummy_set = omega arith;
  unreachable_set = omega arith;
  local_dummy = λ e. omega (arith, e);
  local_unreachable = λ e. omega (arith, e);
  dummy_unreachable = λ e. omega (arith, e);
}

run-history : run up (init up 0) history ≡ state
unfolding run
run-history = rw (start_test, create_test, interface_test, default_test, vpn_test, users_test) refl

pub state-IsConsistent : IsConsistent state
state-IsConsistent = subst IsConsistent run-history (run-init-IsConsistent up sample_ids 0 history)

pub home_here : get_network state 100 ≡ some home
unfolding Map.find
home_here = refl

pub vpn_here : get_network state 101 ≡ some vpn
unfolding Map.find
vpn_here = refl
