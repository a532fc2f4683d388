-- ===== src/Controller/Lifecycle/Consistent.antt =====
-- The invariant of the map of networks and the default network, and how a change of one entry
-- keeps it.
use system_netd.Prelude.{
  ℕ, ◌≤◌, ◌≡◌, ◌≢◌, refl, sym, ◌∙◌, ◌⊎◌, inl, inr, true, false, none, some, ◌==◌, arith, Bool-cases,
  All, ==_iff,
}
use system_netd.Prelude.Keys.{Name, nat_key, name_key}
use system_netd.Containers.Map
use system_netd.Containers.Map.{
  Map, Sorted, All-insert, All-erase, All-find, insert-Sorted, erase-Sorted, find-insert_cases,
  find-erase_cases, find-insert, find-erase, equal_refl, find-cons_cases, find_head,
}
use system_netd.Network.{Network, is_physical, has_interface}
use system_netd.Controller.{Controller}

-- The default network is unset, or a physical network.
abbrev pub IsDefault : ℕ → Map ℕ Network → Type 0
IsDefault d ns = (d ≡ 0) ⊎ ((n : Network) × (Map.find d ns ≡ some n) × (is_physical n ≡ true))

-- Each network is filed under its netId, which is not NETID_UNSET.
abbrev pub Filed : ℕ × Network → Type 0
Filed e = ((e.1).net_id ≡ e.0) × (1 ≤ e.0)

-- Only the network at `id` may have the interface.
abbrev pub OnlyAt : ℕ → Name → Map ℕ Network → Type 0
OnlyAt id x ns = (j : ℕ) (m : Network) → Map.find j ns ≡ some m → has_interface m x ≡ true → j ≡ id

pub record Consistent (d : ℕ) (ns : Map ℕ Network) : Type 0 where
  pub sorted : Sorted ns
  pub filed : All Filed ns
  pub default_network : IsDefault d ns
  -- No interface is in two networks.
  pub exclusive :
      (i : ℕ) (n : Network) (x : Name)
      → Map.find i ns ≡ some n
      → has_interface n x ≡ true
      → OnlyAt i x ns

abbrev pub IsConsistent : {W : Type 0} → Controller W → Type 0
IsConsistent c = Consistent c.default_net_id c.networks

-- What an update of a network object may do to it.
pub record Keeps (ns : Map ℕ Network) (id : ℕ) (n n' : Network) : Type 0 where
  pub net_id : n'.net_id ≡ n.net_id
  pub class : is_physical n' ≡ is_physical n
  pub interfaces :
      (x : Name) → has_interface n' x ≡ true → (has_interface n x ≡ true) ⊎ OnlyAt id x ns

module _ (d : ℕ) (ns : Map ℕ Network) (id : ℕ) (c : Consistent d ns) where
  IsDefault-insert :
      (n' : Network)
      → ((n : Network) → Map.find id ns ≡ some n → is_physical n ≡ true → is_physical n' ≡ true)
      → IsDefault d (Map.insert id n' ns)
  IsDefault-insert n' keep = elim c.default_network [
    | inl unset ↦ inl unset
    | inr (n, here, physical) ↦ elim (Bool-cases (id == d)) [
      | inl same ↦
          let e : id ≡ d = (==_iff id d).0 same in
          inr (n', rw (find-insert id d n' ns, same) refl, keep n (rw e here) physical)
      | inr other ↦ inr (n, rw (find-insert id d n' ns, other) here, physical)
    ]
  ]

  exclusive-insert :
      (n' : Network)
      → ((x : Name) → has_interface n' x ≡ true → OnlyAt id x ns)
      → (i : ℕ) (a : Network) (x : Name) → Map.find i (Map.insert id n' ns) ≡ some a
      → has_interface a x ≡ true
      → OnlyAt i x (Map.insert id n' ns)
  exclusive-insert n' only i a x ea ha j b eb hb = elim (find-insert_cases id i n' a ns ea) [
    | inl (here, same) ↦ elim (find-insert_cases id j n' b ns eb) [
      | inl (here', _) ↦ sym here' ∙ here
      | inr (_, eb') ↦ only x (rw same ha) j b eb' hb ∙ here
    ]
    | inr (_, ea') ↦ elim (find-insert_cases id j n' b ns eb) [
      | inl (here', same') ↦ sym here' ∙ sym (only x (rw same' hb) i a ea' ha)
      | inr (_, eb') ↦ c.exclusive i a x ea' ha j b eb' hb
    ]
  ]

  -- An update of the object at `id`.
  pub Consistent-replace :
      (n n' : Network)
      → Map.find id ns ≡ some n
      → Keeps ns id n n'
      → Consistent d (Map.insert id n' ns)
  Consistent-replace n n' here keeps =
      let filed : Filed (id, n) = All-find Filed id n ns c.filed here in
      record {
        sorted = insert-Sorted id n' ns c.sorted;
        filed = All-insert Filed id n' ns (keeps.net_id ∙ filed.0, filed.1) c.filed;
        default_network =
            IsDefault-insert n'
              (λ m found physical. keeps.class ∙ (ground (arith, found, here, physical)));
        exclusive = exclusive-insert n' (λ x has. elim (keeps.interfaces x has) [
          | inl old ↦ c.exclusive id n x here old
          | inr only ↦ only
        ]);
      }

  -- A new network whose interfaces no other network has.
  pub Consistent-add :
      (n' : Network)
      → Map.find id ns ≡ none
      → 1 ≤ id
      → n'.net_id ≡ id
      → ((x : Name) → has_interface n' x ≡ true → OnlyAt id x ns)
      → Consistent d (Map.insert id n' ns)
  Consistent-add n' free pos filed only = record {
    sorted = insert-Sorted id n' ns c.sorted;
    filed = All-insert Filed id n' ns (filed, pos) c.filed;
    default_network = IsDefault-insert n' (λ m found physical. cc);
    exclusive = exclusive-insert n' only;
  }

  -- A new network without interfaces.
  pub Consistent-new :
      (n' : Network)
      → Map.find id ns ≡ none
      → 1 ≤ id
      → n'.net_id ≡ id
      → ((x : Name) → has_interface n' x ≡ false)
      → Consistent d (Map.insert id n' ns)
  Consistent-new n' free pos filed none_yet =
      Consistent-add n' free pos filed (λ x has. absurd (cc (none_yet x)))

  -- The removal of a network that is not the default one.
  pub Consistent-erase : d ≢ id → Consistent d (Map.erase id ns)
  Consistent-erase other = record {
    sorted = erase-Sorted id ns c.sorted;
    filed = All-erase Filed id ns c.filed;
    default_network = elim c.default_network [
      | inl unset ↦ inl unset
      | inr (n, here, physical) ↦
          inr (n, rw (find-erase id d ns) (ground (arith, here, other)), physical)
    ];
    exclusive = λ i a x ea ha j b eb hb.
        c.exclusive i a x (find-erase_cases id i a ns ea).1 ha j b (find-erase_cases id j b ns eb).1
          hb;
  }

  pub Consistent-default : IsDefault id ns → Consistent id ns
  Consistent-default ok = record {
    sorted = c.sorted;
    filed = c.filed;
    default_network = ok;
    exclusive = c.exclusive;
  }
