-- ===== src/Network/Interfaces.antt =====
-- What the methods of every class do to the interfaces of a network, whatever the kernel answers.
use system_netd.Prelude.{
  ℕ, zero, suc, ◌≤◌, ◌≡◌, ◌≢◌, refl, ap, ◌∙◌, ◌⊎◌, inl, inr, Bool, true, false, List, [], ◌∷◌,
  arith, length, if◌then◌else◌, not,
}
use system_netd.Prelude.Keys.{Name, name_key}
use system_netd.Prelude.Steps.{Step, and_then, commit}
use system_netd.Containers.OrderedSet
use system_netd.Containers.Map.{equal_refl}
use system_netd.Platform.{Platform}
use system_netd.Network.{
  Network, Kind, physical, virtual, unreachable, dummy, local, has_interface, insert_interface,
  erase_interface,
}
use system_netd.Network.Dispatch.{
  add_interface, add_interface_of, remove_interface, remove_interface_of, clear_interfaces,
  clear_loop, clear_round,
}

-- The call succeeds and the network becomes `g n`, or it fails and the network is as it was.
abbrev pub Commits : {W : Type 0} → (Network → Network) → Network → ℕ × (Network × W) → Type 0
Commits g n r = ((r.0 ≡ 0) × ((r.1).0 ≡ g n)) ⊎ ((r.0 ≢ 0) × ((r.1).0 ≡ n))

pub commit-Commits :
    {W : Type 0} (m : Step W) (g : Network → Network) (n : Network) (w : W)
    → Commits g n (commit m g (n, w))
unfolding commit
commit-Commits {W = W} m g n w = after_call (m w)
  where
    after_call : (r : ℕ × W) → Commits g n (and_then (λ s. (0, (g s.0, s.1))) (r.0, (n, r.1)))
    after_call (zero, w') = inl (refl, refl)
    after_call (suc e, w') = inr (ground arith, refl)

-- A method that makes a call and then commits, unless there is nothing to do.
pub call-Commits :
    {W : Type 0} (b : Bool) (m : Step W) (g : Network → Network) (n : Network) (w : W)
    → Commits (λ k. if b then k else g k) n (if b then (0, (n, w)) else commit m g (n, w))
call-Commits true m g n w = inl (refl, refl)
call-Commits false m g n w = commit-Commits m g n w

-- The network with the interface among its own, and without it.
abbrev pub with_interface : Name → Network → Network
with_interface i n = if has_interface n i then n else insert_interface i n

abbrev pub without_interface : Name → Network → Network
without_interface i n = if not (has_interface n i) then n else erase_interface i n

module _ {W : Type 0} (p : Platform W) (vpns : List ℕ) (i : Name) (n : Network) (w : W) where
  add_interface_of-Commits :
      (k : Kind) → Commits (with_interface i) n (add_interface_of p vpns k i (n, w))
  unfolding add_interface_of
  add_interface_of-Commits (physical f) =
      call-Commits (has_interface n i) _ (insert_interface i) n w
  add_interface_of-Commits (virtual e) = call-Commits (has_interface n i) _ (insert_interface i) n w
  add_interface_of-Commits unreachable = inr (ground arith, refl)
  add_interface_of-Commits dummy = inr (ground arith, refl)
  add_interface_of-Commits local = call-Commits (has_interface n i) _ (insert_interface i) n w

  -- Adding an interface, in every class: on success the network has it and nothing else changed, on
  -- failure the network is as it was.
  pub add_interface-Commits : Commits (with_interface i) n (add_interface p vpns i (n, w))
  unfolding add_interface
  add_interface-Commits = add_interface_of-Commits n.kind

  remove_interface_of-Commits :
      (k : Kind) → Commits (without_interface i) n (remove_interface_of p vpns k i (n, w))
  unfolding remove_interface_of
  remove_interface_of-Commits (physical f) =
      call-Commits (not (has_interface n i)) _ (erase_interface i) n w
  remove_interface_of-Commits (virtual e) =
      call-Commits (not (has_interface n i)) _ (erase_interface i) n w
  remove_interface_of-Commits unreachable = inr (ground arith, refl)
  remove_interface_of-Commits dummy = inr (ground arith, refl)
  remove_interface_of-Commits local =
      call-Commits (not (has_interface n i)) _ (erase_interface i) n w

  -- Removing an interface, in every class: on success the network does not have it and nothing else
  -- changed, on failure the network is as it was.
  pub remove_interface-Commits : Commits (without_interface i) n (remove_interface p vpns i (n, w))
  unfolding remove_interface
  remove_interface-Commits = remove_interface_of-Commits n.kind

  -- Adding and removing an interface, in every class: on success the interface is there, or gone,
  -- and nothing else of the network is changed; on failure the network is as it was.
  pub interface_changes-Commit :
      Commits (with_interface i) n (add_interface p vpns i (n, w))
      × Commits (without_interface i) n (remove_interface p vpns i (n, w))
  interface_changes-Commit = (add_interface-Commits, remove_interface-Commits)

length-erase : (i : Name) (is : List Name) → length (OrderedSet.erase i is) ≤ length is
unfolding OrderedSet.erase
length-erase i [] = omega arith
length-erase i (j ∷ is) = ground (arith, length-erase i is)

erase_head : (i : Name) (is : List Name) → length (OrderedSet.erase i (i ∷ is)) ≤ length is
unfolding OrderedSet.erase
erase_head i is = rw (equal_refl i) (length-erase i is)

contains_head : (i : Name) (is : List Name) → OrderedSet.contains i (i ∷ is) ≡ true
unfolding OrderedSet.contains
contains_head i is = rw (equal_refl i)

-- All fields but the interfaces, of which none is new.
pub record FewerInterfaces (n m : Network) : Type 0 where
  pub net_id : m.net_id ≡ n.net_id
  pub uid_range_map : m.uid_range_map ≡ n.uid_range_map
  pub secure : m.secure ≡ n.secure
  pub allowed_uids : m.allowed_uids ≡ n.allowed_uids
  pub kind : m.kind ≡ n.kind
  pub fewer : (x : Name) → has_interface m x ≡ true → has_interface n x ≡ true

-- The call succeeds and leaves no interface, or it fails and leaves some.
abbrev pub Clears : {W : Type 0} → Network → ℕ × (Network × W) → Type 0
Clears n r =
    FewerInterfaces n (r.1).0
    × (((r.0 ≡ 0) × (((r.1).0).interfaces ≡ [])) ⊎ ((r.0 ≢ 0) × (((r.1).0).interfaces ≢ [])))

erase_fewer :
    (i x : Name) (is : List Name)
    → OrderedSet.contains x (OrderedSet.erase i is) ≡ true
    → OrderedSet.contains x is ≡ true
erase_fewer i x is h = ground (arith, h, OrderedSet.contains-erase i x is)

without_head :
    (n : Network) (i : Name) (is : List Name)
    → n.interfaces ≡ i ∷ is
    → without_interface i n ≡ record n { interfaces = OrderedSet.erase i (i ∷ is) }
without_head n i is e = rw (e, contains_head i is) refl

Clears-smaller :
    {W : Type 0} (n m : Network) (r : ℕ × (Network × W))
    → FewerInterfaces n m
    → Clears m r
    → Clears n r
Clears-smaller n m r same c = (
  record {
    net_id = c.0.net_id ∙ same.net_id;
    uid_range_map = c.0.uid_range_map ∙ same.uid_range_map;
    secure = c.0.secure ∙ same.secure;
    allowed_uids = c.0.allowed_uids ∙ same.allowed_uids;
    kind = c.0.kind ∙ same.kind;
    fewer = λ x h. same.fewer x (c.0.fewer x h);
  },
  c.1,
)

FewerInterfaces-refl : (n : Network) → FewerInterfaces n n
FewerInterfaces-refl n = record {
  net_id = refl;
  uid_range_map = refl;
  secure = refl;
  allowed_uids = refl;
  kind = refl;
  fewer = λ x h. h;
}

-- The rounds behind a removal, on the result of the removal.
after_removal :
    {W : Type 0} (fuel : ℕ) (rest : Step (Network × W)) (n : Network) (i : Name) (is : List Name)
    (r : ℕ × (Network × W))
    → n.interfaces ≡ i ∷ is
    → length is ≤ fuel
    → ((m : Network) (w : W) → length m.interfaces ≤ fuel → Clears m (rest (m, w)))
    → Commits (without_interface i) n r
    → Clears n (and_then rest r)
after_removal fuel rest n i is (zero, (m, w)) e h ih (inl (_, c)) =
    let c' = c ∙ without_head n i is e in
    Clears-smaller n m (rest (m, w))
      (record {
        net_id = ap (λ (k : Network). k.net_id) c';
        uid_range_map = ap (λ (k : Network). k.uid_range_map) c';
        secure = ap (λ (k : Network). k.secure) c';
        allowed_uids = ap (λ (k : Network). k.allowed_uids) c';
        kind = ap (λ (k : Network). k.kind) c';
        fewer = λ x has. rw e (
            erase_fewer i x (i ∷ is)
              (rw (ap (λ (k : Network). OrderedSet.contains x k.interfaces) c') at has));
      })
      (ih m w (omega (arith, erase_head i is, ap (λ (k : Network). length k.interfaces) c')))
after_removal fuel rest n i is (zero, (m, w)) e h ih (inr (nonzero, _)) = absurd (nonzero refl)
after_removal fuel rest n i is (suc x, (m, w)) e h ih (inl (z, _)) = absurd (omega arith)
after_removal fuel rest n i is (suc x, (m, w)) e h ih (inr (nonzero, c)) =
    (rw c (FewerInterfaces-refl n), inr (nonzero, λ none_left. cc))

module _ {W : Type 0} (p : Platform W) (vpns : List ℕ) where
  clear_round-Clears :
      (fuel : ℕ) (rest : Step (Network × W)) (n : Network) (w : W) (is : List Name)
      → n.interfaces ≡ is
      → length is ≤ suc fuel
      → ((m : Network) (v : W) → length m.interfaces ≤ fuel → Clears m (rest (m, v)))
      → Clears n (clear_round p vpns is rest (n, w))
  unfolding clear_round
  clear_round-Clears fuel rest n w [] e h ih = (FewerInterfaces-refl n, inl (refl, e))
  clear_round-Clears fuel rest n w (i ∷ is) e h ih =
      after_removal fuel rest n i is (remove_interface p vpns i (n, w)) e (omega arith) ih
        (remove_interface-Commits p vpns i n w)

  clear_loop-Clears :
      (fuel : ℕ) (n : Network) (w : W)
      → length n.interfaces ≤ fuel
      → Clears n (clear_loop p vpns fuel (n, w))
  unfolding clear_loop
  clear_loop-Clears zero n w h = (FewerInterfaces-refl n, inl (refl, empty n.interfaces h))
    where
      empty : (is : List Name) → length is ≤ 0 → is ≡ []
      empty [] le = refl
      empty (i ∷ is) le = absurd (omega arith)
  clear_loop-Clears (suc fuel) n w h =
      clear_round-Clears fuel (clear_loop p vpns fuel) n w n.interfaces refl h
        (clear_loop-Clears fuel)

  -- `clearInterfaces` ends: with success and no interface left, or with the error of a removal and
  -- some interface left. Either way nothing but the interfaces of the network changes.
  pub clear_interfaces-Clears : (n : Network) (w : W) → Clears n (clear_interfaces p vpns (n, w))
  unfolding clear_interfaces
  clear_interfaces-Clears n w = clear_loop-Clears (length n.interfaces) n w (omega arith)
