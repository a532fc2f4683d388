-- ===== src/Controller/Requests/Listed.antt =====
-- What `setNetworkAllowlist` of server/NetworkController.cpp does to each network.
use system_netd.Prelude.{
  ℕ, ◌≡◌, ◌≢◌, All, Any, false, Option-cases, refl, sym, ◌∙◌, ap, ◌⊎◌, inl, inr, true, false,
  Option, none, some, List, [], ◌∷◌, ◌==◌, if◌then◌else◌, Bool-cases, ==_iff,
}
use system_netd.Prelude.Keys.{nat_key}
use system_netd.Containers.Map
use system_netd.Containers.Map.{Map}
use system_netd.UidRanges
use system_netd.UidRanges.{UidRanges}
use system_netd.Errno.{enonet}
use system_netd.Network.{Network, clear_allowed_uids, set_allowed_uids}
use system_netd.Controller.{Controller, get_network}
use system_netd.Controller.Requests.{
  UidRangeConfig, is_some, all_exist, clear_all, allow_on, allow_all, set_network_allowlist,
}

-- The allowlist that the configs ask for at a netId, of which the last counts.
abbrev pub requested : ℕ → List UidRangeConfig → Option UidRanges → Option UidRanges
requested id [] allowed = allowed
requested id (config ∷ configs) allowed =
    requested id configs
      (if config.net_id == id then some (UidRanges.from_parcels config.uid_ranges) else allowed)

-- The network with an allowlist, or with none.
abbrev pub with_allowed : Option UidRanges → Option Network → Option Network
with_allowed allowed none = none
with_allowed allowed (some n) = some (record n { allowed_uids = allowed })

find-clear_all :
    (id : ℕ) (ns : Map ℕ Network) → Map.find id (clear_all ns) ≡ with_allowed none (Map.find id ns)
unfolding clear_all Map.find clear_allowed_uids
find-clear_all id [] = refl
find-clear_all id ((j, n) ∷ ns) = elim (Bool-cases (j == id)) [
  | inl same ↦ rw same refl
  | inr other ↦ rw other (find-clear_all id ns)
]

-- The allowlist that a round leaves at a netId, by what the round finds.
find-allow_on :
    (id : ℕ) (config : UidRangeConfig) (allowed : Option UidRanges) (o q : Option Network)
    (ns : Map ℕ Network)
    → Map.find id ns ≡ with_allowed allowed o
    → Map.find config.net_id ns ≡ q
    → Map.find id (allow_on config q ns)
      ≡ with_allowed
          (if config.net_id == id then some (UidRanges.from_parcels config.uid_ranges) else allowed)
          o
unfolding allow_on set_allowed_uids
find-allow_on id config allowed o none ns e found = elim (Bool-cases (config.net_id == id)) [
  | inl same ↦
      let nothing : with_allowed allowed o ≡ none =
        sym e ∙ ap (λ j. Map.find j ns) (sym ((==_iff config.net_id id).0 same)) ∙ found in
      rw same (missing o nothing e)
  | inr other ↦ rw other e
]
  where
    missing :
        (o : Option Network)
        → with_allowed allowed o ≡ none
        → Map.find id ns ≡ with_allowed allowed o
        → Map.find id ns ≡ with_allowed (some (UidRanges.from_parcels config.uid_ranges)) o
    missing none nothing e = e
    missing (some n) nothing e = absurd (cc nothing)
find-allow_on id config allowed o (some m) ns e found =
    let ranges = UidRanges.from_parcels config.uid_ranges in
    rw (Map.find-insert config.net_id id (record m { allowed_uids = some ranges }) ns)
      (elim (Bool-cases (config.net_id == id)) [
        | inl same ↦
            let there : with_allowed allowed o ≡ some m =
              sym e ∙ ap (λ j. Map.find j ns) (sym ((==_iff config.net_id id).0 same)) ∙ found in
            rw same (present o there)
        | inr other ↦ rw other e
      ])
  where
    present :
        (o : Option Network)
        → with_allowed allowed o ≡ some m
        → some (record m { allowed_uids = some (UidRanges.from_parcels config.uid_ranges) })
          ≡ with_allowed (some (UidRanges.from_parcels config.uid_ranges)) o
    present none there = absurd (cc there)
    present (some n) there =
        ap (with_allowed (some (UidRanges.from_parcels config.uid_ranges))) (sym there)

find-allow_all :
    (id : ℕ) (configs : List UidRangeConfig) (allowed : Option UidRanges) (o : Option Network)
    (ns : Map ℕ Network)
    → Map.find id ns ≡ with_allowed allowed o
    → Map.find id (allow_all configs ns) ≡ with_allowed (requested id configs allowed) o
unfolding allow_all
find-allow_all id [] allowed o ns e = e
find-allow_all id (config ∷ configs) allowed o ns e =
    find-allow_all id configs
      (if config.net_id == id then some (UidRanges.from_parcels config.uid_ranges) else allowed) o
      (allow_on config (Map.find config.net_id ns) ns)
      (find-allow_on id config allowed o (Map.find config.net_id ns) ns e refl)

-- What the first loop finds: some config without a network, or a network for each config.
all_exist_cases :
    (configs : List UidRangeConfig) (ns : Map ℕ Network)
    → ((all_exist configs ns ≡ false) × Any (λ config. Map.find config.net_id ns ≡ none) configs)
      ⊎ ((all_exist configs ns ≡ true) × All (λ config. Map.find config.net_id ns ≢ none) configs)
unfolding all_exist is_some
all_exist_cases [] ns = inr (refl, tt)
all_exist_cases (config ∷ configs) ns = elim (Option-cases (Map.find config.net_id ns)) [
  | inl missing ↦ inl (rw missing refl, inl missing)
  | inr (n, found) ↦ elim (all_exist_cases configs ns) [
    | inl (bad, at) ↦ inl (rw (found, bad) refl, inr at)
    | inr (ok, all) ↦ inr (rw (found, ok) refl, ((λ e. absurd (cc (found, e))), all))
  ]
]

-- `setNetworkAllowlist` is all or nothing. If a config names a network that does not exist, it
-- fails with -ENONET and changes nothing. Otherwise it succeeds, and every network has the ranges
-- of the last config that names it for its allowlist, or no allowlist if none names it; the rest of
-- the network, and which networks exist, stays.
pub allowlist-Listed :
    {W : Type 0} (configs : List UidRangeConfig) (c : Controller W)
    → (Any (λ config. get_network c config.net_id ≡ none) configs
        × (set_network_allowlist configs c ≡ (enonet, c)))
      ⊎ (All (λ config. get_network c config.net_id ≢ none) configs
          × ((set_network_allowlist configs c).0 ≡ 0)
          × ((id : ℕ)
              → get_network (set_network_allowlist configs c).1 id
                ≡ with_allowed (requested id configs none) (get_network c id)))
unfolding set_network_allowlist
allowlist-Listed configs c = elim (all_exist_cases configs c.networks) [
  | inr (ok, all) ↦ rw ok (
      inr (
        all,
        refl,
        λ id.
            find-allow_all id configs none (get_network c id) (clear_all c.networks)
              (find-clear_all id c.networks),
      ))
  | inl (bad, at) ↦ rw bad (inl (at, refl))
]
