-- ===== src/Network.antt =====
-- server/Network.h and server/Network.cpp: the state that all networks have, and its operations.
-- The subclasses are the constructors of `Kind`, each with the fields that it adds.
pub mod Physical
pub mod Simple
pub mod Dispatch
pub mod Interfaces
pub mod Users
pub mod RangeMap
pub mod Held
use system_netd.Prelude.{
  ℕ, ◌≡◌, refl, ◌⊎◌, Bool, true, false, not, ◌&&◌, ◌||◌, Option, none, some, List, [], ◌∷◌,
  if◌then◌else◌, bytes, arith,
}
use system_netd.Prelude.Int.{ℤ, pos, leb_ℤ, eqb_ℤ}
use system_netd.Prelude.Keys.{Name, name_key, int_key}
use system_netd.Containers.Map
use system_netd.Containers.OrderedSet
use system_netd.UidRanges
use system_netd.UidRanges.{UidRanges}
use system_netd.Fwmark.{permission_none, permission_system}
use system_netd.Platform.{UidRangeMap}

-- the fields of `PhysicalNetwork` but the delegate
pub record PhysicalState : Type 0 where
  pub permission : ℕ
  pub is_default : Bool
  pub is_local_network : Bool

pub data Kind : Type 0 where
  physical : PhysicalState → Kind
  virtual : Bool → Kind
  unreachable : Kind
  dummy : Kind
  local : Kind

pub record Network : Type 0 where
  pub net_id : ℕ
  pub interfaces : List Name
  pub uid_range_map : UidRangeMap
  pub secure : Bool
  pub allowed_uids : Option UidRanges
  pub kind : Kind

pub new_network : ℕ → Bool → Kind → Network
new_network net_id secure kind = record {
  net_id = net_id;
  interfaces = [];
  uid_range_map = [];
  secure = secure;
  allowed_uids = none;
  kind = kind;
}

-- the constructors of the subclasses
unfoldable pub new_physical_network : ℕ → Bool → Network
unfolding new_network
new_physical_network net_id is_local = new_network net_id false (
    physical
      (record { permission = permission_none; is_default = false; is_local_network = is_local }))

unfoldable pub new_virtual_network : ℕ → Bool → Bool → Network
unfolding new_network
new_virtual_network net_id secure exclude_local_routes =
    new_network net_id secure (virtual exclude_local_routes)

unfoldable pub new_unreachable_network : ℕ → Network
unfolding new_network
new_unreachable_network net_id = new_network net_id false unreachable

unfoldable pub new_local_network : ℕ → Network
unfolding new_network
new_local_network net_id = new_network net_id false local

abbrev pub dummy_interface_name : Name
dummy_interface_name = bytes "dummy0"

unfoldable pub new_dummy_network : ℕ → Network
unfolding new_network
new_dummy_network net_id = record (new_network net_id false dummy) {
  interfaces = dummy_interface_name ∷ [];
}

abbrev pub has_interface : Network → Name → Bool
has_interface n interface = OrderedSet.contains interface n.interfaces

-- `mInterfaces.insert(interface)` and `mInterfaces.erase(interface)`
abbrev pub insert_interface : Name → Network → Network
insert_interface interface n = record n { interfaces = OrderedSet.insert interface n.interfaces }

abbrev pub erase_interface : Name → Network → Network
erase_interface interface n = record n { interfaces = OrderedSet.erase interface n.interfaces }

is_physical_kind : Kind → Bool
is_physical_kind (physical p) = true
is_physical_kind _ = false

unfoldable pub is_physical : Network → Bool
unfolding is_physical_kind
is_physical n = is_physical_kind n.kind

is_virtual_kind : Kind → Bool
is_virtual_kind (virtual e) = true
is_virtual_kind _ = false

unfoldable pub is_virtual : Network → Bool
unfolding is_virtual_kind
is_virtual n = is_virtual_kind n.kind

is_unreachable_kind : Kind → Bool
is_unreachable_kind unreachable = true
is_unreachable_kind _ = false

unfoldable pub is_unreachable : Network → Bool
unfolding is_unreachable_kind
is_unreachable n = is_unreachable_kind n.kind

can_add_users_kind : Kind → Bool
can_add_users_kind (physical p) = true
can_add_users_kind (virtual e) = true
can_add_users_kind unreachable = true
can_add_users_kind _ = false

unfoldable pub can_add_users : Network → Bool
unfolding can_add_users_kind
can_add_users n = can_add_users_kind n.kind

permission_of_kind : Kind → ℕ
permission_of_kind (physical p) = p.permission
permission_of_kind _ = permission_system

unfoldable pub get_permission : Network → ℕ
unfolding permission_of_kind
get_permission n = permission_of_kind n.kind

-- the loop of `appliesToUser`: the sub-priority of the first entry, in rising order, with the UID
unfoldable pub sub_priority_for : UidRangeMap → ℕ → Option ℤ
sub_priority_for [] uid = none
sub_priority_for ((priority, ranges) ∷ m) uid =
    let rest = sub_priority_for m uid in
    if UidRanges.has_uid ranges uid then some priority else rest

unfoldable pub applies_to_user : Network → ℕ → Option ℤ
unfolding sub_priority_for
applies_to_user n uid = sub_priority_for n.uid_range_map uid

abbrev pub sub_priority_highest : ℤ
sub_priority_highest = pos 0

abbrev pub sub_priority_lowest : ℤ
sub_priority_lowest = pos 998

abbrev pub sub_priority_no_default : ℤ
sub_priority_no_default = pos 999

-- `isValidSubPriority` of each class
unfoldable pub is_valid_sub_priority_kind : Kind → ℤ → Bool
is_valid_sub_priority_kind (physical p) priority =
    (leb_ℤ sub_priority_highest priority && leb_ℤ priority sub_priority_lowest)
    || eqb_ℤ priority sub_priority_no_default
is_valid_sub_priority_kind (virtual e) priority = eqb_ℤ priority sub_priority_highest
is_valid_sub_priority_kind unreachable priority =
    leb_ℤ sub_priority_highest priority && leb_ℤ priority sub_priority_lowest
is_valid_sub_priority_kind _ priority = false

unfoldable pub is_valid_sub_priority : Network → ℤ → Bool
unfolding is_valid_sub_priority_kind
is_valid_sub_priority n priority = is_valid_sub_priority_kind n.kind priority

unfoldable pub can_add_uid_ranges : UidRanges → Bool
can_add_uid_ranges ranges = not (UidRanges.overlaps_self ranges)

unfoldable pub joined : Option UidRanges → UidRanges → UidRanges
joined none ranges = ranges
joined (some old) ranges = UidRanges.add old ranges

unfoldable pub add_to_uid_range_map : UidRanges → ℤ → Network → Network
unfolding joined
add_to_uid_range_map ranges priority n = record n {
  uid_range_map =
      Map.insert priority (joined (Map.find priority n.uid_range_map) ranges) n.uid_range_map;
}

unfoldable pub reduced : Option UidRanges → UidRanges → ℤ → UidRangeMap → UidRangeMap
reduced none ranges priority m = m
reduced (some old) ranges priority m =
    let left = UidRanges.remove old ranges in
    if UidRanges.is_empty left then Map.erase priority m else Map.insert priority left m

unfoldable pub remove_from_uid_range_map : UidRanges → ℤ → Network → Network
unfolding reduced
remove_from_uid_range_map ranges priority n = record n {
  uid_range_map = reduced (Map.find priority n.uid_range_map) ranges priority n.uid_range_map;
}

unfoldable pub clear_allowed_uids : Network → Network
clear_allowed_uids n = record n { allowed_uids = none }

unfoldable pub set_allowed_uids : UidRanges → Network → Network
set_allowed_uids ranges n = record n { allowed_uids = some ranges }

allows : Option UidRanges → ℕ → Bool
allows none uid = true
allows (some ranges) uid = UidRanges.has_uid ranges uid

unfoldable pub is_uid_allowed : Network → ℕ → Bool
unfolding allows
is_uid_allowed n uid = allows n.allowed_uids uid

bare_kind :
    (k : Kind)
    → (is_physical_kind k ≡ true) ⊎ (is_unreachable_kind k ≡ true)
    → is_virtual_kind k ≡ false
unfolding is_physical_kind is_unreachable_kind is_virtual_kind
bare_kind (physical f) h = refl
bare_kind (virtual e) h = ground arith
bare_kind unreachable h = refl
bare_kind dummy h = refl
bare_kind local h = refl

-- No network is of two classes.
pub bare_class :
    (n : Network) → (is_physical n ≡ true) ⊎ (is_unreachable n ≡ true) → is_virtual n ≡ false
unfolding is_physical is_unreachable is_virtual
bare_class n h = bare_kind n.kind h
