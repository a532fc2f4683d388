-- ===== src/RouteTables/Kept.antt =====
-- The table of an interface stays the same while its name is kept, whatever the kernel calls it.
use system_netd.Prelude.{
  ℕ, ◌+◌, ◌%◌, ◌^◌, ◌<◌, ◌≡◌, ◌≢◌, inl, inr, Bool, true, false, none, some, arith, refl, ◌==◌,
  Bool-cases, Option-cases,
}
use system_netd.Prelude.Keys.{Name, name_key, names_equal}
use system_netd.Containers.Map.{Map, find, find-insert, insert, equal_refl}
use system_netd.RouteTables.{
  Kernel, State, get_route_table_for_interface, get_route_table_index_from_global, enter_table,
  get_if_index,
}

index_of_entered :
    (name : Name) (index : ℕ) (tables : Map Name ℕ)
    → index + 1000 < 2 ^ 32
    → find name tables ≡ some ((index + 1000) % 2 ^ 32)
    → get_if_index name tables ≡ index
unfolding get_if_index
index_of_entered name index tables h e = rw (e, get_if_index) (ground arith)

entered_table :
    (name : Name) (index : ℕ) (tables : Map Name ℕ)
    → find name (insert name ((index + 1000) % 2 ^ 32) tables) ≡ some ((index + 1000) % 2 ^ 32)
entered_table name index tables =
    rw (find-insert name name ((index + 1000) % 2 ^ 32) tables, equal_refl name) refl

module _ {W : Type 0} (kernel : Kernel W) where
  -- The map holds the table `global` for the name, and each later lookup answers with it, whatever
  -- index the kernel has for the name then.
  pub record Holds (name : Name) (global : ℕ) (tables : Map Name ℕ) : Type 0 where
    pub found : find name tables ≡ some global
    pub later :
        (local : Bool) (w : W)
        → get_route_table_for_interface kernel name local (tables, w)
          ≡ (get_route_table_index_from_global global local, (tables, w))

  pub lookup_known :
      (name : Name) (global : ℕ) (local : Bool) (tables : Map Name ℕ) (w : W)
      → find name tables ≡ some global
      → get_route_table_for_interface kernel name local (tables, w)
        ≡ (get_route_table_index_from_global global local, (tables, w))
  unfolding get_route_table_for_interface
  lookup_known name global local tables w e = rw (e, get_route_table_for_interface) refl

  lookup_missing :
      (name : Name) (local : Bool) (tables : Map Name ℕ) (w : W)
      → find name tables ≡ none
      → (kernel.if_name_to_index w name == 0) ≡ true
      → get_route_table_for_interface kernel name local (tables, w) ≡ (0, (tables, w))
  unfolding get_route_table_for_interface enter_table
  lookup_missing name local tables w e z = rw (e, get_route_table_for_interface, z) refl

  lookup_entered :
      (name : Name) (local : Bool) (tables : Map Name ℕ) (w : W)
      → find name tables ≡ none
      → (kernel.if_name_to_index w name == 0) ≡ false
      → let global = (kernel.if_name_to_index w name + 1000) % 2 ^ 32 in
        get_route_table_for_interface kernel name local (tables, w)
        ≡ (get_route_table_index_from_global global local, (insert name global tables, w))
  unfolding get_route_table_for_interface enter_table
  lookup_entered name local tables w e z = rw (e, get_route_table_for_interface, z) refl

  kept_after :
      (name : Name) (global : ℕ) (tables : Map Name ℕ)
      → find name tables ≡ some global
      → Holds name global tables
  kept_after name global tables e = record {
    found = e;
    later = λ local w. lookup_known name global local tables w e;
  }

  -- The outcome `r` of a lookup in `s`, where `index` is the kernel's index for the name.
  pub data LooksUp (name : Name) (local : Bool) (index : ℕ) (s : State W) (r : ℕ × State W)
      : Type 0 where
    missing : find name s.0 ≡ none → index ≡ 0 → r ≡ (0, s) → LooksUp name local index s r
    known :
        (global : ℕ)
        → Holds name global s.0
        → r ≡ (get_route_table_index_from_global global local, s)
        → LooksUp name local index s r
    entered :
        find name s.0 ≡ none
        → index ≢ 0
        → r.0 ≡ get_route_table_index_from_global ((index + 1000) % 2 ^ 32) local
        → Holds name ((index + 1000) % 2 ^ 32) r.1.0
        → ((q : Name) → names_equal name q ≡ false → find q r.1.0 ≡ find q s.0)
        → (index + 1000 < 2 ^ 32 → get_if_index name r.1.0 ≡ index)
        → LooksUp name local index s r

  -- The lookup of an interface's table, on every branch: without effect 0 for a name that neither
  -- the map nor the kernel has; the table that the map has, without effect; or the table that the
  -- kernel's index gives, which is kept for this name only, answers every later lookup whatever
  -- index the kernel has then, and gives the index back if it does not wrap around.
  pub lookup-LooksUp :
      (name : Name) (local : Bool) (s : State W)
      → LooksUp name local
          (kernel.if_name_to_index s.1 name)
          s
          (get_route_table_for_interface kernel name local s)
  lookup-LooksUp name local (tables, w) = elim (Option-cases (find name tables)) [
    | inr (global, e) ↦
        known global (kept_after name global tables e) (lookup_known name global local tables w e)
    | inl e ↦ elim (Bool-cases (kernel.if_name_to_index w name == 0)) [
      | inl z ↦ missing e (ground arith) (lookup_missing name local tables w e z)
      | inr z ↦
          let index = kernel.if_name_to_index w name in
          let global = (index + 1000) % 2 ^ 32 in
          let stored = entered_table name index tables in
          rw (lookup_entered name local tables w e z) (
            entered e (ground arith) refl
              (kept_after name global (insert name global tables) stored)
              (λ q other. rw (find-insert name q global tables, other) refl)
              (λ h. index_of_entered name index (insert name global tables) h stored))
    ]
  ]
