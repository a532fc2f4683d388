-- ===== src/Network/Users.antt =====
-- The UID ranges of a network: what `addUsers` and `removeUsers` of every class do to them, and
-- which sub-priority `appliesToUser` reports.
use system_netd.Prelude.{
  ℕ, ◌≡◌, ◌≢◌, refl, sym, subst, inl, inr, ◌⊎◌, Bool, true, false, not, ◌&&◌, ◌||◌, List,
  if◌then◌else◌,
}
use system_netd.Prelude.Int.{ℤ}
use system_netd.Prelude.Keys.{int_key}
use system_netd.Prelude.Steps.{Step, commit}
use system_netd.UidRanges.{UidRanges}
use system_netd.Errno.{einval}
use system_netd.Platform.{Platform}
use system_netd.Network.{
  Network, Kind, physical, virtual, unreachable, dummy, local, is_valid_sub_priority,
  can_add_uid_ranges, add_to_uid_range_map, remove_from_uid_range_map,
}
use system_netd.Network.Dispatch.{add_users, add_users_of, remove_users, remove_users_of}
use system_netd.UidRanges.Overlap.{Rising}
use system_netd.Network.RangeMap.{InOrder}
use system_netd.Network.Held.{Added, Removed, add-Added, remove-Removed}
use system_netd.Network.Interfaces.{Commits, commit-Commits}

-- Refused with -EINVAL before anything is done; otherwise the call succeeds and the network has become
-- one that the predicate allows, or it fails and the network is as it was.
abbrev pub Outcome :
    {W : Type 0} → Bool → (Network → Type 0) → Network × W → ℕ × (Network × W) → Type 0
Outcome accepted P s r =
    ((accepted ≡ false) × (r ≡ (einval, s)))
    ⊎ ((accepted ≡ true) × (((r.0 ≡ 0) × P (r.1).0) ⊎ ((r.0 ≢ 0) × ((r.1).0 ≡ s.0))))

-- Refused with -EINVAL before anything is done; otherwise the call succeeds and `g` is done to the
-- network, or it fails and the network is as it was.
abbrev pub Answers :
    {W : Type 0} → Bool → (Network → Network) → Network × W → ℕ × (Network × W) → Type 0
Answers accepted g s r =
    ((accepted ≡ false) × (r ≡ (einval, s))) ⊎ ((accepted ≡ true) × Commits g s.0 r)

Answers-Outcome :
    {W : Type 0} (accepted : Bool) (g : Network → Network) (P : Network → Type 0) (n : Network)
    (w : W) (r : ℕ × (Network × W))
    → P (g n)
    → Answers accepted g (n, w) r
    → Outcome accepted P (n, w) r
Answers-Outcome accepted g P n w r new (inl bad) = inl bad
Answers-Outcome accepted g P n w r new (inr (ok, inl (zero_ret, e))) =
    inr (ok, inl (zero_ret, subst P (sym e) new))
Answers-Outcome accepted g P n w r new (inr (ok, inr failed)) = inr (ok, inr failed)

module _ {W : Type 0} (m : Step W) (g : Network → Network) (n : Network) (w : W) where
  call-Answers_both :
      (a b : Bool)
      → Answers (a && b) g (n, w) (if not a || not b then (einval, (n, w)) else commit m g (n, w))
  call-Answers_both true true = inr (refl, commit-Commits m g n w)
  call-Answers_both true false = inl (refl, refl)
  call-Answers_both false b = inl (refl, refl)

  call-Answers :
      (a : Bool) → Answers a g (n, w) (if not a then (einval, (n, w)) else commit m g (n, w))
  call-Answers true = inr (refl, commit-Commits m g n w)
  call-Answers false = inl (refl, refl)

module _ {W : Type 0} (p : Platform W) (vpns : List ℕ) (ranges : UidRanges) (q : ℤ) where
  module _ (n : Network) (w : W) where
    add_users_of-Answers :
        (k : Kind)
        → n.kind ≡ k
        → Answers
            (is_valid_sub_priority n q && can_add_uid_ranges ranges)
            (add_to_uid_range_map ranges q)
            (n, w)
            (add_users_of p vpns k ranges q (n, w))
    unfolding add_users_of is_valid_sub_priority
    add_users_of-Answers (physical f) e =
        call-Answers_both _ _ n w (is_valid_sub_priority n q) (can_add_uid_ranges ranges)
    add_users_of-Answers (virtual x) e =
        call-Answers_both _ _ n w (is_valid_sub_priority n q) (can_add_uid_ranges ranges)
    add_users_of-Answers unreachable e =
        call-Answers_both _ _ n w (is_valid_sub_priority n q) (can_add_uid_ranges ranges)
    add_users_of-Answers dummy e = inl (rw (e, is_valid_sub_priority) refl, refl)
    add_users_of-Answers local e = inl (rw (e, is_valid_sub_priority) refl, refl)

    -- Every class: `addUsers` refuses a sub-priority that the class does not take and ranges that
    -- overlap; else it adds the ranges exactly if it succeeds.
    pub add_users-Answers :
        Answers
          (is_valid_sub_priority n q && can_add_uid_ranges ranges)
          (add_to_uid_range_map ranges q)
          (n, w)
          (add_users p vpns ranges q (n, w))
    unfolding add_users
    add_users-Answers = add_users_of-Answers n.kind refl

    remove_users_of-Answers :
        (k : Kind)
        → n.kind ≡ k
        → Answers
            (is_valid_sub_priority n q)
            (remove_from_uid_range_map ranges q)
            (n, w)
            (remove_users_of p vpns k ranges q (n, w))
    unfolding remove_users_of is_valid_sub_priority
    remove_users_of-Answers (physical f) e = call-Answers _ _ n w (is_valid_sub_priority n q)
    remove_users_of-Answers (virtual x) e = call-Answers _ _ n w (is_valid_sub_priority n q)
    remove_users_of-Answers unreachable e = call-Answers _ _ n w (is_valid_sub_priority n q)
    remove_users_of-Answers dummy e = inl (rw (e, is_valid_sub_priority) refl, refl)
    remove_users_of-Answers local e = inl (rw (e, is_valid_sub_priority) refl, refl)

    -- Every class: `removeUsers` refuses a sub-priority that the class does not take; else it
    -- removes the ranges exactly if it succeeds.
    pub remove_users-Answers :
        Answers
          (is_valid_sub_priority n q)
          (remove_from_uid_range_map ranges q)
          (n, w)
          (remove_users p vpns ranges q (n, w))
    unfolding remove_users
    remove_users-Answers = remove_users_of-Answers n.kind refl

    -- Changes of users, in every class, with ranges in order and an ordered map of ranges. Refused
    -- with -EINVAL if the sub-priority is not valid, or if ranges to be added overlap. Otherwise the
    -- network is as it was if the call fails. If it succeeds then each range is at the sub-priority as
    -- often as before and as it is added, or as often less as it is removed, where removing leaves no
    -- entry without a range there; nothing else of the network changes, and the map stays in order.
    pub user_changes-Answer :
        InOrder n.uid_range_map
        → Rising ranges.ranges
        → Outcome
            (is_valid_sub_priority n q && can_add_uid_ranges ranges)
            (Added ranges q n)
            (n, w)
            (add_users p vpns ranges q (n, w))
          × Outcome
              (is_valid_sub_priority n q)
              (Removed ranges q n)
              (n, w)
              (remove_users p vpns ranges q (n, w))
    user_changes-Answer ordered rising = (
      Answers-Outcome _ (add_to_uid_range_map ranges q) (Added ranges q n) n w _
          (add-Added q ranges n ordered rising) add_users-Answers,
      Answers-Outcome _ (remove_from_uid_range_map ranges q) (Removed ranges q n) n w _
          (remove-Removed q ranges n ordered rising) remove_users-Answers,
    )
