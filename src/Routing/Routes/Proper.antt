-- ===== src/Routing/Routes/Proper.antt =====
-- What the requests for routes look like.
use system_netd.Prelude.{
  ℕ, ◌≡◌, ◌≢◌, ◌↔◌, inl, inr, Bool, true, false, ◌&&◌, not, Option, none, some, List, bytes, ◌==◌,
  refl, arith, Bool-cases,
}
use system_netd.Prelude.Keys.{Name, names_equal, names-equal_iff}
use system_netd.Errno.{einval, enodev, efault}
use system_netd.Routing.Prefix.Read.{IsPrefix}
use system_netd.Routing.{Family}
use system_netd.Routing.Prefix.{Prefix}
use system_netd.Routing.Routes.{
  unicast, unreachable_route, throw_route, RouteAction, create_route, replace_route, delete_route,
  is_create, is_link_local, is_some, RouteRequest, Texts, Routes, Target, Aimed, not_aimed, aimed,
  with_gateway, by_interface, target_of, route_request,
}

-- The interface of a route, if it has one, by an index that is not 0.
abbrev pub Through : (Name → ℕ) → Option Name → Option ℕ → Type 0
Through index none oif = oif ≡ none
Through index (some name) oif = (oif ≡ some (index name)) × (index name ≢ 0)

-- The gateway of a route, if it has a next hop: the address that the text of the next hop is read as.
abbrev pub Via : Texts → Family → Option Name → Option (List ℕ) → Type 0
Via texts family none gateway = gateway ≡ none
Via texts family (some text) gateway =
    (raw : List ℕ) × (texts.inet_pton family text ≡ some raw) × (gateway ≡ some raw)

-- Where a route leads: nowhere, for the two words that stand for no next hop, and else by the
-- interface and the next hop that are named.
pub data Leads (texts : Texts) (family : Family) (index : Name → ℕ)
    (interface nexthop : Option Name) (t : Target) : Type 0 where
  unreachable_leads :
      nexthop ≡ some (bytes "unreachable")
      → t.route_type ≡ unreachable_route
      → t.oif ≡ none
      → t.gateway ≡ none
      → Leads texts family index interface nexthop t
  throw_leads :
      nexthop ≡ some (bytes "throw")
      → t.route_type ≡ throw_route
      → t.oif ≡ none
      → t.gateway ≡ none
      → Leads texts family index interface nexthop t
  leads :
      nexthop ≢ some (bytes "unreachable")
      → nexthop ≢ some (bytes "throw")
      → t.route_type ≡ unicast
      → Through index interface t.oif
      → Via texts family nexthop t.gateway
      → Leads texts family index interface nexthop t

-- Why there is no target, and the errno: the interface is not known, or the next hop is neither of the
-- two words nor an address.
pub data Misses (texts : Texts) (family : Family) (index : Name → ℕ)
    (interface nexthop : Option Name) (e : ℕ) : Type 0 where
  no_interface :
      (name : Name)
      → nexthop ≢ some (bytes "unreachable")
      → nexthop ≢ some (bytes "throw")
      → interface ≡ some name
      → index name ≡ 0
      → e ≡ enodev
      → Misses texts family index interface nexthop e
  no_address :
      (text : Name)
      → nexthop ≢ some (bytes "unreachable")
      → nexthop ≢ some (bytes "throw")
      → nexthop ≡ some text
      → texts.inet_pton family text ≡ none
      → e ≡ einval
      → Misses texts family index interface nexthop e

abbrev pub Aims : Texts → Family → (Name → ℕ) → Option Name → Option Name → Aimed → Type 0
Aims texts family index interface nexthop (not_aimed e) =
    Misses texts family index interface nexthop e
Aims texts family index interface nexthop (aimed t) = Leads texts family index interface nexthop t

module _ (texts : Texts) (family : Family) (index : Name → ℕ) (interface : Option Name) where
  with_gateway-Aims :
      (oif : Option ℕ) (nexthop : Option Name)
      → Through index interface oif
      → nexthop ≢ some (bytes "unreachable")
      → nexthop ≢ some (bytes "throw")
      → Aims texts family index interface nexthop (with_gateway texts family oif nexthop)
  unfolding with_gateway
  with_gateway-Aims oif none h u t = leads u t refl h refl
  with_gateway-Aims oif (some text) h u t = by_address (texts.inet_pton family text) refl
    where
      by_address :
          (o : Option (List ℕ))
          → texts.inet_pton family text ≡ o
          → Aims texts family index interface (some text) (elim o [
            | none ↦ not_aimed einval
            | some raw ↦ aimed (record { route_type = unicast; oif = oif; gateway = some raw })
          ])
      by_address none e = no_address text u t refl e refl
      by_address (some raw) e = leads u t refl h (raw, e, refl)

by_interface-Aims :
    (texts : Texts) (family : Family) (index : Name → ℕ) (interface nexthop : Option Name)
    → nexthop ≢ some (bytes "unreachable")
    → nexthop ≢ some (bytes "throw")
    → Aims texts family index interface nexthop (by_interface texts family index interface nexthop)
unfolding by_interface
by_interface-Aims texts family index none nexthop u t =
    with_gateway-Aims texts family index none none nexthop refl u t
by_interface-Aims texts family index (some name) nexthop u t = elim (Bool-cases (index name == 0)) [
  | inl missing ↦ rw missing (no_interface name u t refl (ground (arith, missing)) refl)
  | inr there ↦ rw there (
      with_gateway-Aims texts family index (some name) (some (index name)) nexthop
        (refl, ground (arith, there)) u t)
]

-- A word that a text is not.
other_text : (text word : Name) → names_equal text word ≡ false → some text ≢ some word
other_text text word e same = absurd (cc (e, (names-equal_iff text word).1 (ground (arith, same))))

pub target_of-Aims :
    (texts : Texts) (family : Family) (index : Name → ℕ) (interface nexthop : Option Name)
    → Aims texts family index interface nexthop (target_of texts family index interface nexthop)
unfolding target_of
target_of-Aims texts family index interface none =
    by_interface-Aims texts family index interface none (λ e. absurd (cc e)) (λ e. absurd (cc e))
target_of-Aims texts family index interface (some nexthop) =
    elim (Bool-cases (names_equal nexthop (bytes "unreachable"))) [
      | inl e ↦
          let same = (names-equal_iff nexthop (bytes "unreachable")).0 e in
          rw e (unreachable_leads (rw same refl) refl refl refl)
      | inr e ↦ elim (Bool-cases (names_equal nexthop (bytes "throw"))) [
        | inl e' ↦
            let same = (names-equal_iff nexthop (bytes "throw")).0 e' in
            rw (e, e') (throw_leads (rw same refl) refl refl refl)
        | inr e' ↦
            rw (e, e')
              (by_interface-Aims texts family index interface (some nexthop)
                (other_text nexthop (bytes "unreachable") e)
                (other_text nexthop (bytes "throw") e'))
      ]
    ]

exclusive_iff :
    (action : RouteAction) (b : Bool)
    → ((is_create action && not b) ≡ true) ↔ ((action ≡ create_route) × (b ≡ false))
unfolding is_create
exclusive_iff create_route b = (λ e. (refl, ground (arith, e)), λ h. rw (h.1) refl)
exclusive_iff replace_route b = (λ e. absurd (cc e), λ h. absurd (cc (h.0)))
exclusive_iff delete_route b = (λ e. absurd (cc e), λ h. absurd (cc (h.0)))

link_scope_iff : (gateway : Option (List ℕ)) → (is_some gateway ≡ false) ↔ (gateway ≡ none)
unfolding is_some
link_scope_iff none = (λ e. refl, λ e. refl)
link_scope_iff (some raw) = (λ e. absurd (cc e), λ e. absurd (cc e))

-- The request for a route to the prefix: the action, the table, the MTU and the priority as given,
-- with `NLM_F_EXCL` exactly for the creation of a route whose prefix is not link-local, and in the
-- scope of the link exactly without a gateway.
pub record IsRequest (texts : Texts) (action : RouteAction) (table mtu priority : ℕ)
    (index : Name → ℕ) (interface nexthop : Option Name) (p : Prefix) (q : RouteRequest)
    : Type 0 where
  pub same_action : q.action ≡ action
  pub same_table : q.table ≡ table
  pub same_mtu : q.mtu ≡ mtu
  pub same_priority : q.priority ≡ priority
  pub same_family : q.family ≡ p.family
  pub same_length : q.prefix_length ≡ p.prefix_length
  pub same_destination : q.destination ≡ p.bytes
  pub exclusive :
      (q.excl ≡ true) ↔ ((action ≡ create_route) × (is_link_local p.family p.bytes ≡ false))
  pub link_scope : (q.universe_scope ≡ false) ↔ (q.gateway ≡ none)
  pub leading :
      Leads texts p.family index interface nexthop
        (record { route_type = q.route_type; oif = q.oif; gateway = q.gateway })

pub route_request-IsRequest :
    (texts : Texts) (action : RouteAction) (table mtu priority : ℕ) (index : Name → ℕ)
    (interface nexthop : Option Name) (p : Prefix) (t : Target)
    → Leads texts p.family index interface nexthop t
    → IsRequest texts action table mtu priority index interface nexthop p
        (route_request action table p mtu priority t)
unfolding route_request
route_request-IsRequest texts action table mtu priority index interface nexthop p t h = record {
  same_action = refl;
  same_table = refl;
  same_mtu = refl;
  same_priority = refl;
  same_family = refl;
  same_length = refl;
  same_destination = refl;
  exclusive = exclusive_iff action (is_link_local p.family p.bytes);
  link_scope = link_scope_iff t.gateway;
  leading = h;
}

-- The outcome of asking for a route from the state `w`: an error without a request, for a destination
-- that spells no prefix or a target that is not there, or one request for the prefix that it spells.
pub data Asks {W : Type 0} (routes : Routes W) (texts : Texts) (action : RouteAction)
    (table mtu priority : ℕ) (index : Name → ℕ) (interface destination nexthop : Option Name)
    (w : W) (r : ℕ × W) : Type 0 where
  no_destination :
      destination ≡ none
      → r ≡ (efault, w)
      → Asks routes texts action table mtu priority index interface destination nexthop w r
  no_prefix :
      (text : Name) (e : ℕ)
      → destination ≡ some text
      → ((p : Prefix) → IsPrefix texts.get_addr_info text p → ⊥)
      → e ≢ 0
      → r ≡ (e, w)
      → Asks routes texts action table mtu priority index interface destination nexthop w r
  no_target :
      (text : Name) (p : Prefix) (e : ℕ)
      → destination ≡ some text
      → IsPrefix texts.get_addr_info text p
      → Misses texts p.family index interface nexthop e
      → r ≡ (e, w)
      → Asks routes texts action table mtu priority index interface destination nexthop w r
  asked :
      (text : Name) (p : Prefix) (q : RouteRequest)
      → destination ≡ some text
      → IsPrefix texts.get_addr_info text p
      → IsRequest texts action table mtu priority index interface nexthop p q
      → r ≡ routes.send_route q w
      → Asks routes texts action table mtu priority index interface destination nexthop w r
