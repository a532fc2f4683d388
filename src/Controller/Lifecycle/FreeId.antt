-- ===== src/Controller/Lifecycle/FreeId.antt =====
-- The netId that `createPhysicalOemNetwork` of server/NetworkController.cpp takes.
use system_netd.Prelude.{
  ℕ, zero, suc, ◌+◌, ◌≤◌, ◌<◌, ◌≡◌, refl, subst, ◌⊎◌, inl, inr, true, false, ◌==◌, ltb, arith,
  Bool-cases,
}
use system_netd.Errno.{enonet}
use system_netd.Platform.{Platform}
use system_netd.Controller.{Controller, is_valid_network, min_oem_id, max_oem_id}
use system_netd.Controller.Lifecycle.{
  first_free, oem_result, create_physical_network, create_physical_oem_network,
}

module _ {W : Type 0} (c : Controller W) where
  -- Every netId from `low` up to `id` is in use.
  abbrev pub UsedBetween : ℕ → ℕ → Type 0
  UsedBetween low id = (j : ℕ) → low ≤ j → j < id → is_valid_network c j ≡ true

  -- The loop stops at the first netId that is free, or behind the last one.
  abbrev StopsAt : ℕ → ℕ → ℕ → Type 0
  StopsAt rounds low id =
      (low ≤ id)
      × (id ≤ low + rounds)
      × UsedBetween low id
      × ((id ≡ low + rounds) ⊎ (is_valid_network c id ≡ false))

  used_below :
      (low id : ℕ) → is_valid_network c low ≡ true → UsedBetween (low + 1) id → UsedBetween low id
  used_below low id here above j le lt = elim (Bool-cases (low == j)) [
    | inl same ↦ subst (λ k. is_valid_network c k ≡ true) (ground (arith, same)) here
    | inr other ↦ above j (ground (arith, other, le)) lt
  ]

  first_free-StopsAt : (rounds low : ℕ) → StopsAt rounds low (first_free rounds low c)
  unfolding first_free
  first_free-StopsAt zero low =
      (omega arith, omega arith, λ j le lt. absurd (omega (arith, le, lt)), inl (omega arith))
  first_free-StopsAt (suc rounds) low = elim (Bool-cases (is_valid_network c low)) [
    | inl used ↦
        let (above, below, between, stop) = first_free-StopsAt rounds (low + 1) in
        rw used (
          omega (arith, above),
          omega (arith, below),
          used_below low (first_free rounds (low + 1) c) used between,
          elim stop [ inl last ↦ inl (omega (arith, last)) | inr free ↦ inr free ],
        )
    | inr free ↦
        rw free (omega arith, omega arith, λ j le lt. absurd (omega (arith, le, lt)), inr free)
  ]

  -- `createPhysicalOemNetwork` takes the least free netId between MIN_OEM_ID and MAX_OEM_ID, and
  -- returns it if the creation succeeds, 0 otherwise; when every one of them is in use, it returns
  -- -ENONET and changes nothing.
  pub create_oem-Least :
      (p : Platform W) (permission : ℕ)
      → (UsedBetween min_oem_id (max_oem_id + 1)
          × (create_physical_oem_network p permission c ≡ (enonet, (0, c))))
        ⊎ ((id : ℕ) × (min_oem_id ≤ id)
            × (id ≤ max_oem_id)
            × UsedBetween min_oem_id id
            × (is_valid_network c id ≡ false)
            × (create_physical_oem_network p permission c
                ≡ oem_result id (create_physical_network p id permission false c)))
  unfolding create_physical_oem_network
  create_oem-Least p permission =
      let id = first_free max_oem_id min_oem_id c in
      let (above, below, between, stop) = first_free-StopsAt max_oem_id min_oem_id in
      elim (Bool-cases (ltb max_oem_id id)) [
        | inl full ↦
            let last : id ≡ max_oem_id + 1 = ground (arith, full, below) in
            rw full (inl (subst (UsedBetween min_oem_id) last between, refl))
        | inr found ↦
            rw found (inr (id, above, ground (arith, found), between, free_at id found stop, refl))
      ]
    where
      free_at :
          (id : ℕ)
          → ltb max_oem_id id ≡ false
          → (id ≡ min_oem_id + max_oem_id) ⊎ (is_valid_network c id ≡ false)
          → is_valid_network c id ≡ false
      free_at id found (inl last) = absurd (ground (arith, found, last))
      free_at id found (inr free) = free
