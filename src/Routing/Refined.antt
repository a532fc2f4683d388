-- ===== src/Routing/Refined.antt =====
-- The functions for whole networks refine their plans, for adding and removing alike.
use system_netd.Prelude.{
  ℕ, ◌≡◌, ◌≢◌, Bool, true, false, not, some, List, [], ◌∷◌, ◌++◌, ◌==◌, if◌then◌else◌, refl, ap,
  arith, Bool-cases, inl, inr,
}
use system_netd.Prelude.Int.{ℤ, eqb_ℤ}
use system_netd.Prelude.Keys.{Name, name_key}
use system_netd.Prelude.Steps.{Step, ◌>>◌, for_each, on_second}
use system_netd.Prelude.Performs.{Performs->>, Performs-when, Performs-on_second, embedded}
use system_netd.Containers.Map.{Map, find}
use system_netd.Errno.{esrch}
use system_netd.Platform.{UidRangeMap}
use system_netd.RouteTables.{
  Kernel, State, get_route_table_for_interface, get_route_table_index_from_global,
}
use system_netd.RouteTables.Kept.{lookup_known}
use system_netd.Routing.{Netlink}
use system_netd.Routing.UidRules.{
  uid_network_rule, uid_default_network_rule, uid_local_network_rule,
}
use system_netd.Routing.Networks.{
  modify_uid_rule, modify_virtual_network, modify_physical_range, modify_uid_local_network_rule,
  modify_physical_network, modify_unreachable_network, modify_unreachable_range,
  sub_priority_no_default,
}
use system_netd.Routing.Plans.{
  Item, rule, perform, virtual_plan, physical_range_plan, physical_plan, unreachable_plan,
  unreachable_range_plan,
}
use system_netd.Routing.Performed.{
  Specified, EachRange, Does, DoesOn, does_uid_rule, ranges_performed, EachRange-weaken,
}
use system_netd.Routing.Parts.{does_virtual, does_unreachable_range, does_whole_physical}

-- Unless a range has no end, `modifyUnreachableNetwork` does the steps of its plan.
pub unreachable-Refines :
    {W : Type 0} (netlink : Netlink W) (add : Bool) (net_id : ℕ) (uid_range_map : UidRangeMap)
    (w : W)
    → EachRange (λ sub. Specified) uid_range_map
    → modify_unreachable_network netlink add net_id uid_range_map w
      ≡ for_each (unreachable_plan net_id uid_range_map) (perform netlink add) w
unfolding unreachable_plan modify_unreachable_network
unreachable-Refines netlink add net_id uid_range_map w specified =
    (ranges_performed netlink add (λ w. w) (unreachable_range_plan net_id)
        (modify_unreachable_range netlink add net_id) uid_range_map
        (EachRange-weaken _ _ (does_unreachable_range netlink add net_id) uid_range_map
          specified)).does
      w

-- For an interface without a table, `modifyVirtualNetwork` fails; for any other it does the steps of
-- the plan for the table of the interface, which is the same for adding and for removing.
pub virtual-Refines :
    {W : Type 0} (kernel : Kernel W) (netlink : Netlink W) (add : Bool) (net_id : ℕ)
    (interface : Name) (uid_range_map : UidRangeMap) (secure whole exclude : Bool) (s : State W)
    → let found = get_route_table_for_interface kernel interface false s in
      modify_virtual_network kernel netlink add net_id interface uid_range_map secure whole exclude
        s
      ≡ (if found.0 == 0
          then (esrch, found.1)
          else on_second
              (for_each
                (virtual_plan net_id interface uid_range_map secure whole exclude found.0)
                (perform netlink add))
              found.1)
unfolding modify_virtual_network
virtual-Refines kernel netlink add net_id interface uid_range_map secure whole exclude s =
    let found = get_route_table_for_interface kernel interface false s in
    elim (Bool-cases (found.0 == 0)) [
      | inl none_known ↦ rw none_known refl
      | inr known ↦ rw known (
          ap (embedded (perform netlink add) (λ w. (found.1.0, w))) (
            (does_virtual netlink add net_id interface uid_range_map secure whole exclude
                found.0).does
              found.1.1))
    ]

module _ {W : Type 0} (kernel : Kernel W) (netlink : Netlink W) (add : Bool) (interface : Name)
    (global : ℕ) (tables : Map Name ℕ) (held : find interface tables ≡ some global)
    (some_local : get_route_table_index_from_global global true ≢ 0) where
  abbrev DoesState : List Item → Step (State W) → Type 0
  DoesState items m = Does netlink add (λ w. (tables, w)) items m

  abbrev then_state :
      (xs ys : List Item) (m k : Step (State W))
      → DoesState xs m
      → DoesState ys k
      → DoesState (xs ++ ys) (m >> k)
  then_state xs ys m k = Performs->> (perform netlink add) (λ w. (tables, w)) xs ys m k

  lift : (xs : List Item) (m : Step W) → DoesOn netlink add xs m → DoesState xs (on_second m)
  lift xs m = Performs-on_second (perform netlink add) tables xs m

  does_uid_local :
      (start stop : ℕ)
      → Specified start stop
      → DoesState
          (rule (uid_local_network_rule (get_route_table_index_from_global global true) start stop)
            ∷ [])
          (modify_uid_local_network_rule kernel netlink add interface start stop)
  unfolding modify_uid_local_network_rule
  does_uid_local start stop h = record {
    does = λ w.
        let table = get_route_table_index_from_global global true in
        let known : (table == 0) ≡ false = ground (arith, some_local) in
        rw (lookup_known kernel interface global true tables w held, known)
          ((lift (rule (uid_local_network_rule table start stop) ∷ [])
              (modify_uid_rule netlink add start stop (uid_local_network_rule table start stop))
              (does_uid_rule netlink add start stop (uid_local_network_rule table start stop)
                h)).does
            w);
  }

  does_physical_range :
      (net_id : ℕ) (sub : ℤ) (start stop : ℕ)
      → Specified start stop
      → DoesState
          (physical_range_plan net_id global
            (get_route_table_index_from_global global true)
            sub
            start
            stop)
          (modify_physical_range kernel netlink add net_id interface global sub start stop)
  unfolding physical_range_plan modify_physical_range
  does_physical_range net_id sub start stop h =
      then_state _ _ _ _
        (then_state _ _ _ _
          (lift _ _ (
            does_uid_rule netlink add start stop
              (uid_network_rule net_id global start stop sub true) h))
          (lift _ _ (
            does_uid_rule netlink add start stop
              (uid_network_rule net_id global start stop sub false) h)))
        (Performs-when (perform netlink add) (λ w. (tables, w))
          (not (eqb_ℤ sub sub_priority_no_default)) _ _
          (then_state _ _ _ _
            (lift _ _ (
              does_uid_rule netlink add start stop (uid_default_network_rule global start stop sub)
                h))
            (does_uid_local start stop h)))

  -- With a known interface and no range without an end, `modifyPhysicalNetwork` does the steps of
  -- its plan, which is the same for adding and for removing.
  pub physical-Refines :
      (local_net_id net_id : ℕ) (uid_range_map : UidRangeMap) (permission : ℕ) (whole local : Bool)
      (w : W)
      → global ≢ 0
      → EachRange (λ sub. Specified) uid_range_map
      → modify_physical_network kernel netlink add local_net_id net_id interface uid_range_map
          permission whole local
          (tables, w)
        ≡ on_second
            (for_each
              (physical_plan local_net_id net_id interface uid_range_map permission whole local
                global
                (get_route_table_index_from_global global true))
              (perform netlink add))
            (tables, w)
  unfolding modify_physical_network physical_plan get_route_table_index_from_global
  physical-Refines local_net_id net_id uid_range_map permission whole local w some_table specified =
      let known : (global == 0) ≡ false = ground (arith, some_table) in
      rw (lookup_known kernel interface global false tables w held, known)
        ((then_state _ _ _ _
            (ranges_performed netlink add (λ w. (tables, w))
              (physical_range_plan net_id global (get_route_table_index_from_global global true))
              (modify_physical_range kernel netlink add net_id interface global) uid_range_map
              (EachRange-weaken _ _ (does_physical_range net_id) uid_range_map specified))
            (Performs-when (perform netlink add) (λ w. (tables, w)) whole _ _
              (lift _ _ (
                does_whole_physical netlink add local_net_id net_id interface global permission
                  local)))).does
          w)
