-- ===== src/Containers/Map.antt =====
-- `std::map`: entries in the order of their keys, as iteration meets them.
use system_netd.Prelude.{
  ◌≡◌, refl, subst, inl, inr, ◌⊎◌, true, false, Option, none, some, List, [], ◌∷◌, arith,
  if◌then◌else◌, Bool-cases, All,
}
use system_netd.Prelude.Keys.{Key}

abbrev pub Map {ℓ} : Type ℓ → Type ℓ → Type ℓ
Map K V = List (K × V)

pub equal_refl {ℓ} : {K : Type ℓ} ⦃key : Key K⦄ (k : K) → key.equal k k ≡ true
equal_refl ⦃key⦄ k = (key.equal_iff k k).1 refl

module _ {ℓ} {K V : Type ℓ} ⦃key : Key K⦄ where
  unfoldable pub find : K → Map K V → Option V
  find k [] = none
  find k ((j, v) ∷ m) = if key.equal j k then some v else find k m

  -- `m[k] = v`; the key of an entry that is there stays
  unfoldable pub insert : K → V → Map K V → Map K V
  insert k v [] = (k, v) ∷ []
  insert k v ((j, w) ∷ m) =
      if key.less k j
      then (k, v) ∷ (j, w) ∷ m
      else if key.less j k
      then (j, w) ∷ insert k v m
      else (j, v) ∷ m

  -- `m.erase(k)`
  unfoldable pub erase : K → Map K V → Map K V
  erase k [] = []
  erase k ((j, w) ∷ m) = let rest = erase k m in if key.equal j k then rest else (j, w) ∷ rest

  pub find-insert :
      (k q : K) (v : V) (m : Map K V)
      → find q (insert k v m) ≡ (if key.equal k q then some v else find q m)
  unfolding find insert
  find-insert k q v [] = refl
  find-insert k q v ((j, w) ∷ m) = ground (
    arith,
    find-insert k q v m,
    key.less_total k j,
    key.equal_iff k q,
    key.equal_iff j q,
    key.less_irrefl k,
  )

  pub find-erase :
      (k q : K) (m : Map K V) → find q (erase k m) ≡ (if key.equal k q then none else find q m)
  unfolding find erase
  find-erase k q [] = ground arith
  find-erase k q ((j, w) ∷ m) =
      ground (arith, find-erase k q m, key.equal_iff k q, key.equal_iff j q, key.equal_iff j k)

  -- The head of the map, and what is behind it.
  pub find_head : (k : K) (v : V) (m : Map K V) → find k ((k, v) ∷ m) ≡ some v
  unfolding find
  find_head k v m = rw (equal_refl k)

  pub find-cons_cases :
      (j k : K) (w v : V) (m : Map K V)
      → find k ((j, w) ∷ m) ≡ some v
      → ((j ≡ k) × (w ≡ v)) ⊎ (find k m ≡ some v)
  unfolding find
  find-cons_cases j k w v m e = elim (Bool-cases (key.equal j k)) [
    | inl same ↦
        let found : some w ≡ some v = rw same at e in
        inl ((key.equal_iff j k).0 same, ground (arith, found))
    | inr other ↦ inr (rw other at e)
  ]

  pub find-insert_cases :
      (k q : K) (v w : V) (m : Map K V)
      → find q (insert k v m) ≡ some w
      → ((k ≡ q) × (v ≡ w)) ⊎ ((key.equal k q ≡ false) × (find q m ≡ some w))
  find-insert_cases k q v w m e = elim (Bool-cases (key.equal k q)) [
    | inl same ↦
        let found : some v ≡ some w = rw (find-insert k q v m, same) at e in
        inl ((key.equal_iff k q).0 same, ground (arith, found))
    | inr other ↦ inr (other, rw (find-insert k q v m, other) at e)
  ]

  pub find-erase_cases :
      (k q : K) (w : V) (m : Map K V)
      → find q (erase k m) ≡ some w
      → (key.equal k q ≡ false) × (find q m ≡ some w)
  find-erase_cases k q w m e = elim (Bool-cases (key.equal k q)) [
    | inl same ↦ let found : none ≡ some w = rw (find-erase k q m, same) at e in absurd (cc found)
    | inr other ↦ (other, rw (find-erase k q m, other) at e)
  ]

  -- Keys rise along the map, and no key is there twice.
  abbrev pub Sorted : Map K V → Type 0
  Sorted [] = Unit
  Sorted ((k, v) ∷ m) = All (λ e. key.less k e.0 ≡ true) m × Sorted m

  module _ (P : K × V → Type 0) where
    pub All-insert : (k : K) (v : V) (m : Map K V) → P (k, v) → All P m → All P (insert k v m)
    unfolding insert
    All-insert k v [] new h = (new, tt)
    All-insert k v ((j, w) ∷ m) new h = elim (Bool-cases (key.less k j)) [
      | inl before ↦ rw before (new, h)
      | inr e ↦ elim (Bool-cases (key.less j k)) [
        | inl after ↦ rw (e, after) (h.0, All-insert k v m new h.1)
        | inr e' ↦ rw (e, e') (subst (λ i. P (i, v) × All P m) (key.less_total k j e e') (new, h.1))
      ]
    ]

    pub All-erase : (k : K) (m : Map K V) → All P m → All P (erase k m)
    unfolding erase
    All-erase k [] h = tt
    All-erase k ((j, w) ∷ m) h = ground (arith, All-erase k m h.1)

    pub All-find : (k : K) (v : V) (m : Map K V) → All P m → find k m ≡ some v → P (k, v)
    unfolding find
    All-find k v [] h e = cc
    All-find k v ((j, w) ∷ m) h e = elim (Bool-cases (key.equal j k)) [
      | inl same ↦
          let found : some w ≡ some v = rw same at e in
          subst P (ground (arith, found, key.equal_iff j k)) h.0
      | inr other ↦ All-find k v m h.1 (rw other at e)
    ]

    -- The map at a key that is written, and at the others.
    pub All-mono :
        (Q : K × V → Type 0) (m : Map K V) → ((e : K × V) → P e → Q e) → All P m → All Q m
    All-mono Q [] f h = tt
    All-mono Q (e ∷ m) f h = (f e h.0, All-mono Q m f h.1)

  -- The head of a sorted map hides no entry behind it.
  pub find_further :
      (j k : K) (w v : V) (m : Map K V)
      → All (λ e. key.less j e.0 ≡ true) m
      → find k m ≡ some v
      → find k ((j, w) ∷ m) ≡ some v
  unfolding find
  find_further j k w v m above e = ground (
    arith,
    e,
    All-find (λ e. key.less j e.0 ≡ true) k v m above e,
    key.equal_iff j k,
    key.less_irrefl k,
  )

  insert-above :
      (i k : K) (v : V) (m : Map K V)
      → key.less i k ≡ true
      → All (λ e. key.less i e.0 ≡ true) m
      → All (λ e. key.less i e.0 ≡ true) (insert k v m)
  insert-above i k v m below h = All-insert (λ e. key.less i e.0 ≡ true) k v m below h

  pub insert-Sorted : (k : K) (v : V) (m : Map K V) → Sorted m → Sorted (insert k v m)
  unfolding insert
  insert-Sorted k v [] h = (tt, tt)
  insert-Sorted k v ((j, w) ∷ m) h = elim (Bool-cases (key.less k j)) [
    | inl before ↦ rw before (
      (
        before,
        All-mono (λ e. key.less j e.0 ≡ true) (λ e. key.less k e.0 ≡ true) m
            (λ e p. key.less_trans k j e.0 before p) h.0,
      ),
      h,
    )
    | inr e ↦ elim (Bool-cases (key.less j k)) [
      | inl after ↦ rw (e, after) (insert-above j k v m after h.0, insert-Sorted k v m h.1)
      | inr e' ↦ rw (e, e') h
    ]
  ]

  pub erase-Sorted : (k : K) (m : Map K V) → Sorted m → Sorted (erase k m)
  unfolding erase
  erase-Sorted k [] h = tt
  erase-Sorted k ((j, w) ∷ m) h = elim (Bool-cases (key.equal j k)) [
    | inl same ↦ rw same (erase-Sorted k m h.1)
    | inr other ↦ rw other (All-erase (λ e. key.less j e.0 ≡ true) k m h.0, erase-Sorted k m h.1)
  ]

pub ruleset map_laws = (find-insert, find-erase, equal_refl)
