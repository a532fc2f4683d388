-- ===== src/Controller/Invariant/Allowlist.antt =====
-- `setNetworkAllowlist` keeps the invariant.
use system_netd.Prelude.{
  ℕ, ◌≡◌, refl, inl, inr, true, Option, none, some, List, [], ◌∷◌, arith, Bool-cases, All,
}
use system_netd.Prelude.Keys.{Key, nat_key, name_key}
use system_netd.Containers.Map
use system_netd.Containers.Map.{Map, Sorted}
use system_netd.UidRanges
use system_netd.UidRanges.{UidRanges}
use system_netd.Network.{Network, is_physical, clear_allowed_uids, set_allowed_uids}
use system_netd.Controller.{Controller}
use system_netd.Controller.Requests.{
  UidRangeConfig, clear_all, all_exist, allow_on, allow_all, set_network_allowlist,
}
use system_netd.Controller.Lifecycle.Consistent.{
  Filed, Consistent, IsConsistent, Consistent-replace,
}
use system_netd.Controller.Lifecycle.Preserves.{Keeps-of_all}

cleared : Option Network → Option Network
cleared none = none
cleared (some n) = some (clear_allowed_uids n)

find-clear_all :
    (id : ℕ) (ns : Map ℕ Network) → Map.find id (clear_all ns) ≡ cleared (Map.find id ns)
unfolding Map.find clear_all cleared
find-clear_all id [] = refl
find-clear_all id ((j, n) ∷ ns) = ground (arith, find-clear_all id ns)

module _ (P Q : ℕ × Network → Type 0) where
  All-clear_all :
      (ns : Map ℕ Network)
      → ((id : ℕ) (n : Network) → P (id, n) → Q (id, clear_allowed_uids n))
      → All P ns
      → All Q (clear_all ns)
  unfolding clear_all
  All-clear_all [] f h = tt
  All-clear_all ((id, n) ∷ ns) f h = (f id n h.0, All-clear_all ns f h.1)

clear_all-Sorted : (ns : Map ℕ Network) → Sorted ns → Sorted (clear_all ns)
unfolding clear_all
clear_all-Sorted [] h = tt
clear_all-Sorted ((id, n) ∷ ns) h = (
  All-clear_all (λ e. Key.less nat_key id e.0 ≡ true) (λ e. Key.less nat_key id e.0 ≡ true) ns
      (λ _ _ below. below) h.0,
  clear_all-Sorted ns h.1,
)

-- A network of the cleared map was there with the same interfaces.
source :
    (id : ℕ) (m : Network) (ns : Map ℕ Network)
    → Map.find id (clear_all ns) ≡ some m
    → (n : Network) × (Map.find id ns ≡ some n) × (m ≡ clear_allowed_uids n)
unfolding cleared
source id m ns e = go (Map.find id ns) refl
  where
    go :
        (o : Option Network)
        → Map.find id ns ≡ o
        → (n : Network) × (Map.find id ns ≡ some n) × (m ≡ clear_allowed_uids n)
    go none f = absurd (cc (find-clear_all id ns))
    go (some n) f = (n, f, ground (arith, find-clear_all id ns, f, e))

clear_all-Consistent : (d : ℕ) (ns : Map ℕ Network) → Consistent d ns → Consistent d (clear_all ns)
unfolding clear_allowed_uids is_physical cleared
clear_all-Consistent d ns c = record {
  sorted = clear_all-Sorted ns c.sorted;
  filed = All-clear_all Filed Filed ns (λ id n h. h) c.filed;
  default_network = elim c.default_network [
    | inl z ↦ inl z
    | inr (n, here, physical) ↦
        inr (clear_allowed_uids n, rw (find-clear_all d ns, here) refl, physical)
  ];
  exclusive = λ i n x e has j m e' has'.
      let (a, ea, same) = source i n ns e in
      let (b, eb, same') = source j m ns e' in
      c.exclusive i a x ea (ground (arith, has, same)) j b eb (ground (arith, has', same'));
}

allow_on-Consistent :
    (d : ℕ) (config : UidRangeConfig) (o : Option Network) (ns : Map ℕ Network)
    → Map.find config.net_id ns ≡ o
    → Consistent d ns
    → Consistent d (allow_on config o ns)
unfolding allow_on set_allowed_uids is_physical
allow_on-Consistent d config none ns here c = c
allow_on-Consistent d config (some n) ns here c = Consistent-replace d ns config.net_id c n _ here (
    Keeps-of_all ns config.net_id n (set_allowed_uids (UidRanges.from_parcels config.uid_ranges) n)
      (refl, refl, λ x h. h))

allow_all-Consistent :
    (d : ℕ) (configs : List UidRangeConfig) (ns : Map ℕ Network)
    → Consistent d ns
    → Consistent d (allow_all configs ns)
unfolding allow_all
allow_all-Consistent d [] ns c = c
allow_all-Consistent d (config ∷ configs) ns c =
    allow_all-Consistent d configs (allow_on config (Map.find config.net_id ns) ns)
      (allow_on-Consistent d config (Map.find config.net_id ns) ns refl c)

pub set_allowlist-IsConsistent :
    {W : Type 0} (configs : List UidRangeConfig) (c : Controller W)
    → IsConsistent c
    → IsConsistent (set_network_allowlist configs c).1
unfolding set_network_allowlist
set_allowlist-IsConsistent configs c k = elim (Bool-cases (all_exist configs c.networks)) [
  | inl e ↦ rw e (
      allow_all-Consistent c.default_net_id configs (clear_all c.networks)
        (clear_all-Consistent c.default_net_id c.networks k))
  | inr e ↦ rw e k
]
