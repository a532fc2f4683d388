-- ===== src/Routing/Counted.antt =====
-- A kernel that counts what it is asked for, and what a step of a plan does to its counts.
use system_netd.Prelude.{
  ℕ, zero, suc, ◌+◌, ◌≤◌, ◌<◌, ◌≡◌, Bool, true, false, ◌==◌, ==_iff, refl, sym, ap, ◌∙◌, arith,
  Bool-cases, inl, inr,
}
use system_netd.Prelude.Keys.{Name, name_key}
use system_netd.Prelude.Steps.{Step, and_then, ◌>>◌}
use system_netd.Prelude.Undo.{Countable}
use system_netd.Routing.{Netlink, Rule, Family, inet, inet6, check_rule, request_of, modify_ip_rule}
use system_netd.Routing.Networks.{modify_incoming_packet_mark}
use system_netd.Routing.Plans.{Item, rule, incoming_mark, perform}

-- A rule of one family, or the mark for the packets of an interface.
pub data Request : Type 0 where
  rule_of : Rule → Family → Request
  mark_of : ℕ → Name → ℕ → Request

abbrev pub send_request : {W : Type 0} → Netlink W → Bool → Request → Step W
send_request netlink add (rule_of r family) = netlink.send_rule (request_of add r family)
send_request netlink add (mark_of net_id interface permission) =
    modify_incoming_packet_mark netlink add net_id interface permission

-- The kernel keeps what it was asked for as often as it was asked, and a request to delete takes
-- one of those that were added by the same request. `weight` tells which requests are the same.
pub record KeepsCounts {W : Type 0} (netlink : Netlink W) : Type 1 where
  pub count : Request → W → ℕ
  pub weight : Request → Request → ℕ
  pub weight_self : (k : Request) → weight k k ≡ 1
  pub added :
      (k : Request) (w : W)
      → (send_request netlink true k w).0 ≡ 0
      → (q : Request) → count q (send_request netlink true k w).1 ≡ count q w + weight q k
  pub removed :
      (k : Request) (w : W)
      → 0 < count k w
      → ((send_request netlink false k w).0 ≡ 0)
        × ((q : Request) → count q (send_request netlink false k w).1 + weight q k ≡ count q w)

module _ {W : Type 0} (netlink : Netlink W) (c : KeepsCounts netlink) where
  pub item_weight : Request → Item → ℕ
  item_weight q (rule r) = c.weight q (rule_of r inet) + c.weight q (rule_of r inet6)
  item_weight q (incoming_mark net_id interface permission) =
      c.weight q (mark_of net_id interface permission)

  abbrev pub Fine : Item → Type 0
  Fine (rule r) = check_rule true r ≡ 0
  Fine (incoming_mark net_id interface permission) = Unit

  both : (m k : Step W) (w : W) → ((m >> k) w).0 ≡ 0 → ((m w).0 ≡ 0) × ((m >> k) w ≡ k (m w).1)
  both m k w = by_result (m w)
    where
      by_result : (r : ℕ × W) → (and_then k r).0 ≡ 0 → (r.0 ≡ 0) × (and_then k r ≡ k r.1)
      by_result (zero, v) e = (refl, refl)
      by_result (suc n, v) e = absurd (omega (arith, e))

  go_on : (m k : Step W) (w : W) → (m w).0 ≡ 0 → (m >> k) w ≡ k (m w).1
  go_on m k w = by_result (m w)
    where
      by_result : (r : ℕ × W) → r.0 ≡ 0 → and_then k r ≡ k r.1
      by_result (zero, v) e = refl
      by_result (suc n, v) e = absurd (omega (arith, e))

  -- A check that passes for adding passes for removing.
  fine_remove : (r : Rule) → check_rule true r ≡ 0 → check_rule false r ≡ 0
  unfolding check_rule
  fine_remove r h = ground (arith, h)

  passed :
      (add : Bool) (r : Rule)
      → check_rule add r ≡ 0
      → perform netlink add (rule r)
        ≡ (send_request netlink add (rule_of r inet) >> send_request netlink add (rule_of r inet6))
  unfolding perform modify_ip_rule
  passed add r h = rw h refl

  refused_adding :
      (r : Rule) (w : W) → (perform netlink true (rule r) w).0 ≡ 0 → check_rule true r ≡ 0
  unfolding perform modify_ip_rule
  refused_adding r w e = elim (Bool-cases (check_rule true r == 0)) [
    | inl ok ↦ (==_iff _ _).0 ok
    | inr bad ↦ rw bad at e
  ]

  mark_added :
      (net_id : ℕ) (interface : Name) (permission : ℕ) (w : W)
      → (perform netlink true (incoming_mark net_id interface permission) w).0 ≡ 0
      → Unit {0}
        × ((q : Request)
            → c.count q (perform netlink true (incoming_mark net_id interface permission) w).1
              ≡ c.count q w + c.weight q (mark_of net_id interface permission))
  unfolding perform
  mark_added net_id interface permission w e =
      (tt, c.added (mark_of net_id interface permission) w e)

  mark_removed :
      (net_id : ℕ) (interface : Name) (permission : ℕ) (w : W)
      → let k = mark_of net_id interface permission in
        let after = perform netlink false (incoming_mark net_id interface permission) w in
        c.weight k k ≤ c.count k w
        → (after.0 ≡ 0) × ((q : Request) → c.count q after.1 + c.weight q k ≡ c.count q w)
  unfolding perform
  mark_removed net_id interface permission w h =
      let k = mark_of net_id interface permission in
      c.removed k w (omega (arith, h, c.weight_self k))

  pub item_added :
      (i : Item) (w : W)
      → (perform netlink true i w).0 ≡ 0
      → Fine i
        × ((q : Request) → c.count q (perform netlink true i w).1 ≡ c.count q w + item_weight q i)
  unfolding item_weight
  item_added (rule r) w e =
      let fine = refused_adding r w e in
      let first = send_request netlink true (rule_of r inet) in
      let second = send_request netlink true (rule_of r inet6) in
      let same : perform netlink true (rule r) w ≡ (first >> second) w =
        ap (λ m. m w) (passed true r fine) in
      let ok = both first second w (sym (ap (λ x. x.0) same) ∙ e) in
      let last : (second (first w).1).0 ≡ 0 = sym (ap (λ x. x.0) (same ∙ ok.1)) ∙ e in
      (
        fine,
        λ q.
            let one = c.added (rule_of r inet) w ok.0 q in
            let two = c.added (rule_of r inet6) (first w).1 last q in
            let whole = ap (λ x. c.count q x.1) (same ∙ ok.1) in omega (arith, one, two, whole),
      )
  item_added (incoming_mark net_id interface permission) w e =
      mark_added net_id interface permission w e

  pub item_removed :
      (i : Item) (w : W)
      → Fine i
      → ((q : Request) → item_weight q i ≤ c.count q w)
      → ((perform netlink false i w).0 ≡ 0)
        × ((q : Request) → c.count q (perform netlink false i w).1 + item_weight q i ≡ c.count q w)
  unfolding item_weight
  item_removed (rule r) w fine h =
      let k4 = rule_of r inet in
      let k6 = rule_of r inet6 in
      let first = send_request netlink false k4 in
      let second = send_request netlink false k6 in
      let same : perform netlink false (rule r) w ≡ (first >> second) w =
        ap (λ m. m w) (passed false r (fine_remove r fine)) in
      let one = c.removed k4 w (omega (arith, h k4, c.weight_self k4)) in
      let two = c.removed k6 (first w).1 (omega (arith, h k6, one.1 k6, c.weight_self k6)) in
      let whole = same ∙ go_on first second w one.0 in
      (
        ap (λ x. x.0) whole ∙ two.0,
        λ q.
            let counted = ap (λ x. c.count q x.1) whole in omega (arith, one.1 q, two.1 q, counted),
      )
  item_removed (incoming_mark net_id interface permission) w fine h =
      mark_removed net_id interface permission w (h (mark_of net_id interface permission))

  unfoldable pub countable : Countable Request (perform netlink)
  countable = record {
    count = c.count;
    weight = item_weight;
    Fine = Fine;
    added = item_added;
    removed = item_removed;
  }
