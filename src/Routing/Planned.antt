-- ===== src/Routing/Planned.antt =====
-- The rules of the plans are rules that netd builds.
use system_netd.Prelude.{
  ℕ, ◌≢◌, Bool, true, false, not, List, [], ◌∷◌, map, ◌==◌, if◌then◌else◌, arith, All, All-append,
  All_of_entries,
}
use system_netd.Prelude.Int.{ℤ, eqb_ℤ, to_uint32}
use system_netd.Prelude.Keys.{Name}
use system_netd.Prelude.Performs.{concat_map}
use system_netd.Fwmark.{permission_none}
use system_netd.Platform.{UidRangeMap}
use system_netd.Network.{sub_priority_highest}
use system_netd.Routing.{Rule, invalid_uid}
use system_netd.Routing.Rules.{local_network_rules, output_interface_rules, iif_loopback, uid_root}
use system_netd.Routing.Networks.{sub_priority_no_default}
use system_netd.Routing.Built.{
  InBounds, Built, vpn_output_to_local, vpn_uid_range, vpn_system_permission, explicit_network,
  local_network, output_interface, implicit_network, uid_network, uid_default_network,
  uid_local_network,
}
use system_netd.Routing.Plans.{
  Item, rule, incoming_mark, plan_ranges, vpn_range_plan, whole_vpn_plan, virtual_plan,
  physical_range_plan, whole_physical_plan, physical_plan,
}

abbrev pub IsBuilt : Item → Type 0
IsBuilt (rule r) = Built r
IsBuilt (incoming_mark net_id interface permission) = Unit

abbrev pub Bounded : UidRangeMap → Type 0
Bounded uid_range_map = All (λ e. InBounds e.0) uid_range_map

All-concat_map :
    {A : Type 0} (g : A → List Item) (xs : List A)
    → All (λ x. All IsBuilt (g x)) xs
    → All IsBuilt (concat_map g xs)
All-concat_map g [] h = tt
All-concat_map g (x ∷ xs) h =
    All-append IsBuilt (g x) (concat_map g xs) h.0 (All-concat_map g xs h.1)

each_range : {A : Type 0} (P : A → Type 0) (xs : List A) → ((x : A) → P x) → All P xs
each_range P [] h = tt
each_range P (x ∷ xs) h = (h x, each_range P xs h)

ranges-IsBuilt :
    (plan : ℤ → ℕ → ℕ → List Item) (uid_range_map : UidRangeMap)
    → Bounded uid_range_map
    → ((sub : ℤ) (start stop : ℕ) → InBounds sub → All IsBuilt (plan sub start stop))
    → All IsBuilt (plan_ranges uid_range_map plan)
unfolding plan_ranges
ranges-IsBuilt plan [] b h = tt
ranges-IsBuilt plan ((sub, ranges) ∷ m) b h =
    All-append IsBuilt _ _
      (All-concat_map (λ r. plan sub (to_uint32 r.start) (to_uint32 r.stop)) ranges.ranges
        (each_range _ ranges.ranges (λ r. h sub (to_uint32 r.start) (to_uint32 r.stop) b.0)))
      (ranges-IsBuilt plan m b.1 h)

rules-IsBuilt : (rules : List Rule) → All Built rules → All IsBuilt (map rule rules)
rules-IsBuilt [] h = tt
rules-IsBuilt (r ∷ rules) h = (h.0, rules-IsBuilt rules h.1)

highest-InBounds : InBounds sub_priority_highest
highest-InBounds = record { low = omega arith; high = omega arith }

output-IsBuilt :
    (interface : Name) (table permission start stop : ℕ) (sub : ℤ)
    → InBounds sub
    → All IsBuilt (map rule (output_interface_rules interface table permission start stop sub))
output-IsBuilt interface table permission start stop sub b = rules-IsBuilt _ (
    All_of_entries Built (output_interface_rules interface table permission start stop sub)
      (λ r. output_interface interface table permission start stop sub r b))

when-IsBuilt : (b : Bool) (xs : List Item) → All IsBuilt xs → All IsBuilt (if b then xs else [])
when-IsBuilt true xs h = h
when-IsBuilt false xs h = tt

-- Each rule of a virtual network, whose interface is not the loopback, is one that netd builds.
pub virtual-IsBuilt :
    (net_id : ℕ) (interface : Name) (uid_range_map : UidRangeMap) (secure whole exclude : Bool)
    (table : ℕ)
    → interface ≢ iif_loopback
    → Bounded uid_range_map
    → All IsBuilt (virtual_plan net_id interface uid_range_map secure whole exclude table)
unfolding virtual_plan vpn_range_plan whole_vpn_plan
virtual-IsBuilt net_id interface uid_range_map secure whole exclude table ne b =
    All-append IsBuilt _ _
      (ranges-IsBuilt (vpn_range_plan net_id interface table secure exclude) uid_range_map b
        (λ sub start stop inb. (
          vpn_uid_range table start stop sub secure exclude inb,
          (
            explicit_network net_id table permission_none start stop sub inb,
            output-IsBuilt interface table permission_none start stop sub inb,
          ),
        )))
      (when-IsBuilt whole _ (
        tt,
        (
          vpn_output_to_local interface ne,
          (
            vpn_system_permission net_id table secure exclude,
            (
              explicit_network net_id table permission_none uid_root uid_root sub_priority_highest
                  highest-InBounds,
              tt,
            ),
          ),
        ),
      ))

-- Each rule of a physical network is one that netd builds.
pub physical-IsBuilt :
    (local_net_id net_id : ℕ) (interface : Name) (uid_range_map : UidRangeMap) (permission : ℕ)
    (whole local : Bool) (table local_table : ℕ)
    → Bounded uid_range_map
    → All IsBuilt (
        physical_plan local_net_id net_id interface uid_range_map permission whole local table
          local_table)
unfolding physical_plan physical_range_plan whole_physical_plan
physical-IsBuilt local_net_id net_id interface uid_range_map permission whole local table
      local_table b =
    All-append IsBuilt _ _
      (ranges-IsBuilt (physical_range_plan net_id table local_table) uid_range_map b
        (λ sub start stop inb. (
          uid_network net_id table start stop sub true inb,
          (
            uid_network net_id table start stop sub false inb,
            when-IsBuilt (not (eqb_ℤ sub sub_priority_no_default)) _ (
              uid_default_network table start stop sub inb,
              (uid_local_network local_table start stop, tt),
            ),
          ),
        )))
      (when-IsBuilt whole _ (
        tt,
        (
          explicit_network net_id table permission invalid_uid invalid_uid sub_priority_highest
              highest-InBounds,
          All-append IsBuilt _ _
              (All-append IsBuilt _ _
                (when-IsBuilt local _ (
                  rules-IsBuilt _ (
                    All_of_entries Built (local_network_rules local_net_id table)
                      (local_network local_net_id table))))
                (output-IsBuilt interface table permission invalid_uid invalid_uid
                  sub_priority_highest highest-InBounds))
              (when-IsBuilt (permission == permission_none) _ (implicit_network net_id table, tt)),
        ),
      ))
