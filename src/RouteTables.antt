-- ===== src/RouteTables.antt =====
-- server/RouteController.cpp: which routing table is the table of an interface, and what is kept of
-- it in `sInterfaceToTable`. Table numbers are 32-bit words. The state is the map and the kernel's.
pub mod Kept
pub mod Flushed
use system_netd.Prelude.{
  ℕ, zero, suc, ◌+◌, ◌-◌, ◌%◌, ◌^◌, Bool, true, false, ◌&&◌, not, Option, none, some, ◌==◌, bit_and,
  if◌then◌else◌,
}
use system_netd.Prelude.Keys.{Name, name_key}
use system_netd.Prelude.Steps.{Step}
use system_netd.Containers.Map.{Map, find, insert, erase}
use system_netd.Errno.{esrch}

-- `if_nametoindex`, which is 0 for a name that there is not, and `rtNetlinkFlush` on the routes of
-- one table.
pub record Kernel (W : Type 0) : Type 0 where
  pub if_name_to_index : W → Name → ℕ
  pub flush_table : ℕ → Step W

abbrev pub State : Type 0 → Type 0
State W = Map Name ℕ × W

abbrev pub rt_table_unspec : ℕ
rt_table_unspec = 0

abbrev pub route_table_local_network : ℕ
route_table_local_network = 97

abbrev pub route_table_legacy_network : ℕ
route_table_legacy_network = 98

abbrev pub route_table_legacy_system : ℕ
route_table_legacy_system = 99

abbrev pub route_table_offset_from_index : ℕ
route_table_offset_from_index = 1000

abbrev pub route_table_offset_from_index_for_local : ℕ
route_table_offset_from_index_for_local = 1000000000

unfoldable pub get_route_table_index_from_global : ℕ → Bool → ℕ
get_route_table_index_from_global index local =
    let offset = route_table_offset_from_index_for_local - route_table_offset_from_index in
    if local then (index + offset) % 2 ^ 32 else index

-- What is looked up when the name is not in the map.
unfoldable pub enter_table : Name → Bool → ℕ → Map Name ℕ → ℕ × Map Name ℕ
unfolding get_route_table_index_from_global insert
enter_table name local index tables =
    let global = (index + route_table_offset_from_index) % 2 ^ 32 in
    if index == 0
    then (rt_table_unspec, tables)
    else (get_route_table_index_from_global global local, insert name global tables)

module _ {W : Type 0} (kernel : Kernel W) where
  unfoldable pub get_route_table_for_interface : Name → Bool → State W → ℕ × State W
  unfolding get_route_table_index_from_global enter_table find
  get_route_table_for_interface name local (tables, w) = elim (find name tables) [
    | some global ↦ (get_route_table_index_from_global global local, (tables, w))
    | none ↦
        let entered = enter_table name local (kernel.if_name_to_index w name) tables in
        (entered.0, (entered.1, w))
  ]

  -- `flushRoutes(interface, local)`
  unfoldable pub flush_routes_of : Name → Bool → Step (State W)
  unfolding get_route_table_for_interface erase
  flush_routes_of name local s =
      let found = get_route_table_for_interface name local s in
      let ret = kernel.flush_table found.0 found.1.1 in
      if found.0 == rt_table_unspec
      then (esrch, found.1)
      else (ret.0, (if (ret.0 == 0) && not local then erase name found.1.0 else found.1.0, ret.1))

-- `|` on two values that are 0 or a negative errno: `-(a + 1) | -(b + 1)` is `-((a & b) + 1)`.
unfoldable pub or_errno : ℕ → ℕ → ℕ
or_errno zero e = e
or_errno (suc a) zero = suc a
or_errno (suc a) (suc b) = suc (bit_and a b)

-- `flushRoutes(interface)`
unfoldable pub flush_routes : {W : Type 0} → Kernel W → Name → Step (State W)
unfolding flush_routes_of or_errno
flush_routes kernel name s =
    let locally = flush_routes_of kernel name true s in
    let globally = flush_routes_of kernel name false locally.1 in
    (or_errno locally.0 globally.0, globally.1)

unfoldable pub get_if_index : Name → Map Name ℕ → ℕ
unfolding find
get_if_index name tables = elim (find name tables) [
  | none ↦ 0
  | some table ↦
      if table == route_table_local_network
      then 0
      else (table + 2 ^ 32 - route_table_offset_from_index) % 2 ^ 32
]
