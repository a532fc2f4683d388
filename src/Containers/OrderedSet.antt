-- ===== src/Containers/OrderedSet.antt =====
-- `std::set`: members in rising order, as iteration meets them.
use system_netd.Prelude.{◌≡◌, refl, Bool, true, false, List, [], ◌∷◌, arith, if◌then◌else◌}
use system_netd.Prelude.Keys.{Key}

module _ {ℓ} {K : Type ℓ} ⦃key : Key K⦄ where
  -- `s.find(k) != s.end()`
  unfoldable pub contains : K → List K → Bool
  contains k [] = false
  contains k (j ∷ s) = if key.equal j k then true else contains k s

  unfoldable pub insert : K → List K → List K
  insert k [] = k ∷ []
  insert k (j ∷ s) =
      if key.less k j then k ∷ j ∷ s else if key.less j k then j ∷ insert k s else j ∷ s

  -- `s.erase(k)`
  unfoldable pub erase : K → List K → List K
  erase k [] = []
  erase k (j ∷ s) = let rest = erase k s in if key.equal j k then rest else j ∷ rest

  pub contains-insert :
      (k q : K) (s : List K)
      → contains q (insert k s) ≡ (if key.equal k q then true else contains q s)
  unfolding contains insert
  contains-insert k q [] = refl
  contains-insert k q (j ∷ s) = ground (
    arith,
    contains-insert k q s,
    key.less_total k j,
    key.equal_iff k q,
    key.equal_iff j q,
    key.less_irrefl k,
  )

  pub contains-erase :
      (k q : K) (s : List K)
      → contains q (erase k s) ≡ (if key.equal k q then false else contains q s)
  unfolding contains erase
  contains-erase k q [] = ground arith
  contains-erase k q (j ∷ s) =
      ground (arith, contains-erase k q s, key.equal_iff k q, key.equal_iff j q, key.equal_iff j k)

pub ruleset set_laws = (contains-insert, contains-erase)
