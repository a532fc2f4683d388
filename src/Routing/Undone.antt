-- ===== src/Routing/Undone.antt =====
-- Removing a network after adding it: what the kernel has of its rules and marks.
use system_netd.Prelude.{
  ℕ, ◌≡◌, ◌≢◌, Bool, true, false, some, List, ◌==◌, refl, sym, ap, ◌∙◌, arith,
}
use system_netd.Prelude.Keys.{Name, name_key}
use system_netd.Prelude.Steps.{Step, for_each, on_second}
use system_netd.Prelude.Undo.{removed_after_added}
use system_netd.Containers.Map.{Map, find}
use system_netd.Platform.{UidRangeMap}
use system_netd.RouteTables.{Kernel, State, get_route_table_index_from_global}
use system_netd.RouteTables.Kept.{lookup_known}
use system_netd.Routing.{Netlink}
use system_netd.Routing.Networks.{modify_virtual_network, modify_physical_network}
use system_netd.Routing.Plans.{Item, perform, virtual_plan, physical_plan}
use system_netd.Routing.Performed.{Specified, EachRange}
use system_netd.Routing.Refined.{virtual-Refines, physical-Refines}
use system_netd.Routing.Counted.{Request, KeepsCounts, countable}

virtual_known :
    {W : Type 0} (kernel : Kernel W) (netlink : Netlink W) (net_id : ℕ) (interface : Name)
    (uid_range_map : UidRangeMap) (secure whole exclude : Bool) (global : ℕ) (tables : Map Name ℕ)
    → find interface tables ≡ some global
    → global ≢ 0
    → (add : Bool) (w : W)
    → modify_virtual_network kernel netlink add net_id interface uid_range_map secure whole exclude
        (tables, w)
      ≡ on_second
          (for_each
            (virtual_plan net_id interface uid_range_map secure whole exclude global)
            (perform netlink add))
          (tables, w)
unfolding get_route_table_index_from_global
virtual_known kernel netlink net_id interface uid_range_map secure whole exclude global tables held
      some_table add w =
    let found = lookup_known kernel interface global false tables w held in
    let known : (global == 0) ≡ false = ground (arith, some_table) in
    rw
      (
        virtual-Refines kernel netlink add net_id interface uid_range_map secure whole exclude
            (tables, w),
        found,
        known,
      )
      refl

plan_undone :
    {W : Type 0} (netlink : Netlink W) (c : KeepsCounts netlink) (plan : List Item)
    (change : Bool → Step (State W)) (tables : Map Name ℕ) (w : W)
    → ((add : Bool) (v : W)
        → change add (tables, v) ≡ on_second (for_each plan (perform netlink add)) (tables, v))
    → let added = change true (tables, w) in
      let removed = change false added.1 in
      added.0 ≡ 0
      → (removed.0 ≡ 0)
        × (removed.1.0 ≡ tables)
        × ((q : Request) → c.count q removed.1.1 ≡ c.count q w)
unfolding countable
plan_undone netlink c plan change tables w does ok =
    let between = (for_each plan (perform netlink true) w).1 in
    let added_ok = sym (ap (λ r. r.0) (does true w)) ∙ ok in
    let undone = removed_after_added (perform netlink) (countable netlink c) plan w added_ok in
    let last = ap (λ s. change false s) (ap (λ r. r.1) (does true w)) ∙ does false between in
    (
      ap (λ r. r.0) last ∙ undone.0,
      ap (λ r. r.1.0) last,
      λ q. ap (λ r. c.count q r.1.1) last ∙ undone.1 q,
    )

-- With a kernel that keeps counts and a known interface: if adding the rules of a virtual network
-- succeeds, then removing them succeeds, and the kernel has each rule and mark as often as before.
pub virtual-Undone :
    {W : Type 0} (kernel : Kernel W) (netlink : Netlink W) (c : KeepsCounts netlink) (net_id : ℕ)
    (interface : Name) (uid_range_map : UidRangeMap) (secure whole exclude : Bool) (global : ℕ)
    (tables : Map Name ℕ) (w : W)
    → find interface tables ≡ some global
    → global ≢ 0
    → let change = λ (add : Bool).
      modify_virtual_network kernel netlink add net_id interface uid_range_map secure whole
        exclude in
      let added = change true (tables, w) in
      let removed = change false added.1 in
      added.0 ≡ 0
      → (removed.0 ≡ 0)
        × (removed.1.0 ≡ tables)
        × ((q : Request) → c.count q removed.1.1 ≡ c.count q w)
virtual-Undone kernel netlink c net_id interface uid_range_map secure whole exclude global tables w
      held some_table =
    plan_undone netlink c (virtual_plan net_id interface uid_range_map secure whole exclude global)
      (λ add.
        modify_virtual_network kernel netlink add net_id interface uid_range_map secure whole
          exclude)
      tables w
      (virtual_known kernel netlink net_id interface uid_range_map secure whole exclude global
        tables held some_table)

-- With a kernel that keeps counts and a known interface with a local table, and if no range lacks an
-- end: if adding the rules of a physical network succeeds, then removing them succeeds, and the kernel
-- has each rule and mark as often as before.
pub physical-Undone :
    {W : Type 0} (kernel : Kernel W) (netlink : Netlink W) (c : KeepsCounts netlink)
    (local_net_id net_id : ℕ) (interface : Name) (uid_range_map : UidRangeMap) (permission : ℕ)
    (whole local : Bool) (global : ℕ) (tables : Map Name ℕ) (w : W)
    → find interface tables ≡ some global
    → global ≢ 0
    → get_route_table_index_from_global global true ≢ 0
    → EachRange (λ sub. Specified) uid_range_map
    → let change = λ (add : Bool).
      modify_physical_network kernel netlink add local_net_id net_id interface uid_range_map
        permission whole local in
      let added = change true (tables, w) in
      let removed = change false added.1 in
      added.0 ≡ 0
      → (removed.0 ≡ 0)
        × (removed.1.0 ≡ tables)
        × ((q : Request) → c.count q removed.1.1 ≡ c.count q w)
physical-Undone kernel netlink c local_net_id net_id interface uid_range_map permission whole local
      global tables w held some_table some_local specified =
    plan_undone netlink c
      (physical_plan local_net_id net_id interface uid_range_map permission whole local global
        (get_route_table_index_from_global global true))
      (λ add.
        modify_physical_network kernel netlink add local_net_id net_id interface uid_range_map
          permission whole local)
      tables w
      (λ add v.
        physical-Refines kernel netlink add interface global tables held some_local local_net_id
          net_id uid_range_map permission whole local v some_table specified)
