-- ===== src/Routing/Performed.antt =====
-- `modify…Network` does the steps of its plan, in order, until one fails.
use system_netd.Prelude.{ℕ, ◌≡◌, ◌≢◌, Bool, false, ◌||◌, List, [], ◌∷◌, map, ◌==◌, refl, arith, All}
use system_netd.Prelude.Int.{ℤ, to_uint32}
use system_netd.Prelude.Keys.{Name, name_key}
use system_netd.Prelude.Steps.{Step, for_each}
use system_netd.Prelude.Performs.{
  Performs, Performs-for_each, Performs-one, Performs-map, concat_map,
}
use system_netd.UidRanges.{UidRangeParcel}
use system_netd.Platform.{UidRangeMap}
use system_netd.Routing.{Netlink, Rule, modify_ip_rule, invalid_uid}
use system_netd.Routing.Networks.{
  each_range, modify_incoming_packet_mark, modify_rules, modify_uid_rule,
}
use system_netd.Routing.Plans.{Item, rule, incoming_mark, perform, plan_ranges}

-- Both ends of a range are UIDs.
abbrev pub Specified : ℕ → ℕ → Type 0
Specified start stop = (start ≢ invalid_uid) × (stop ≢ invalid_uid)

abbrev pub EachRange : (ℤ → ℕ → ℕ → Type 0) → UidRangeMap → Type 0
EachRange P uid_range_map =
    All (λ e. All (λ r. P e.0 (to_uint32 r.start) (to_uint32 r.stop)) e.1.ranges) uid_range_map

All-weaken :
    {A : Type 0} (P Q : A → Type 0) → ((x : A) → P x → Q x) → (xs : List A) → All P xs → All Q xs
All-weaken P Q f [] h = tt
All-weaken P Q f (x ∷ xs) h = (f x h.0, All-weaken P Q f xs h.1)

module _ {W S : Type 0} (netlink : Netlink W) (add : Bool) (embed : W → S) where
  abbrev pub Does : List Item → Step S → Type 0
  Does items m = Performs (perform netlink add) embed items m

  pub ranges_performed :
      (plan : ℤ → ℕ → ℕ → List Item) (body : ℤ → ℕ → ℕ → Step S) (uid_range_map : UidRangeMap)
      → EachRange (λ sub start stop. Does (plan sub start stop) (body sub start stop)) uid_range_map
      → Does (plan_ranges uid_range_map plan) (each_range uid_range_map body)
  unfolding plan_ranges each_range
  ranges_performed plan body uid_range_map h =
      Performs-for_each (perform netlink add) embed
        (λ e. concat_map (λ r. plan e.0 (to_uint32 r.start) (to_uint32 r.stop)) e.1.ranges)
        (λ e. for_each e.1.ranges (λ r. body e.0 (to_uint32 r.start) (to_uint32 r.stop)))
        uid_range_map
        (All-weaken _ _
          (λ e he.
            Performs-for_each (perform netlink add) embed
              (λ r. plan e.0 (to_uint32 r.start) (to_uint32 r.stop))
              (λ r. body e.0 (to_uint32 r.start) (to_uint32 r.stop)) e.1.ranges he)
          uid_range_map h)

module _ {W : Type 0} (netlink : Netlink W) (add : Bool) where
  abbrev pub DoesOn : List Item → Step W → Type 0
  DoesOn items m = Does netlink add (λ w. w) items m

  pub does_rule : (r : Rule) → DoesOn (rule r ∷ []) (modify_ip_rule netlink add r)
  unfolding perform
  does_rule r = Performs-one (perform netlink add) (λ w. w) (rule r) _ (λ w. refl)

  pub does_mark :
      (net_id : ℕ) (interface : Name) (permission : ℕ)
      → DoesOn
          (incoming_mark net_id interface permission ∷ [])
          (modify_incoming_packet_mark netlink add net_id interface permission)
  unfolding perform
  does_mark net_id interface permission =
      Performs-one (perform netlink add) (λ w. w) (incoming_mark net_id interface permission) _
        (λ w. refl)

  pub does_rules : (rules : List Rule) → DoesOn (map rule rules) (modify_rules netlink add rules)
  unfolding modify_rules
  does_rules rules =
      Performs-map (perform netlink add) (λ w. w) rule (modify_ip_rule netlink add) does_rule rules

  pub does_uid_rule :
      (start stop : ℕ) (r : Rule)
      → Specified start stop
      → DoesOn (rule r ∷ []) (modify_uid_rule netlink add start stop r)
  unfolding modify_uid_rule
  does_uid_rule start stop r h =
      let known : ((start == invalid_uid) || (stop == invalid_uid)) ≡ false = ground (arith, h) in
      rw known (does_rule r)

pub always :
    (P : ℤ → ℕ → ℕ → Type 0)
    → ((sub : ℤ) (start stop : ℕ) → P sub start stop)
    → (uid_range_map : UidRangeMap) → EachRange P uid_range_map
always P h [] = tt
always P h (e ∷ m) = (each e.1.ranges, always P h m)
  where
    each : (rs : List UidRangeParcel) → All (λ r. P e.0 (to_uint32 r.start) (to_uint32 r.stop)) rs
    each [] = tt
    each (r ∷ rs) = (h e.0 (to_uint32 r.start) (to_uint32 r.stop), each rs)

pub EachRange-weaken :
    (P Q : ℤ → ℕ → ℕ → Type 0)
    → ((sub : ℤ) (start stop : ℕ) → P sub start stop → Q sub start stop)
    → (uid_range_map : UidRangeMap) → EachRange P uid_range_map
    → EachRange Q uid_range_map
EachRange-weaken P Q f =
    All-weaken _ _
      (λ e. All-weaken _ _ (λ r. f e.0 (to_uint32 r.start) (to_uint32 r.stop)) e.1.ranges)
