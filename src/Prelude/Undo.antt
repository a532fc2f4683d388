-- ===== src/Prelude/Undo.antt =====
-- Steps that add things and steps that remove them: removing all that were added restores how many
-- there are of each.
use Prim.Native.Nat.{ℕ, zero, suc, ◌+◌, ◌≤◌}
use mathlib.Core.Path.{◌≡◌, refl, sym, ap, ◌∙◌}
use mathlib.Core.Bool.{Bool, true, false}
use mathlib.Core.List.{List, [], ◌∷◌}
use native.Mathlib.Omega.{arith}
use system_netd.Prelude.Steps.{Step, and_then, for_each}
use system_netd.Prelude.Lists.{All}

-- `count q w` is how many things of the kind `q` are there, and `weight q k` how many `k` adds.
pub record Countable {K W : Type 0} (Q : Type 0) (send : Bool → K → Step W) : Type 1 where
  pub count : Q → W → ℕ
  pub weight : Q → K → ℕ
  pub Fine : K → Type 0
  pub added :
      (k : K) (w : W)
      → (send true k w).0 ≡ 0
      → Fine k × ((q : Q) → count q (send true k w).1 ≡ count q w + weight q k)
  pub removed :
      (k : K) (w : W)
      → Fine k
      → ((q : Q) → weight q k ≤ count q w)
      → ((send false k w).0 ≡ 0) × ((q : Q) → count q (send false k w).1 + weight q k ≡ count q w)

module _ {K Q W : Type 0} (send : Bool → K → Step W) (c : Countable Q send) where
  total : Q → List K → ℕ
  total q [] = 0
  total q (k ∷ ks) = c.weight q k + total q ks

  first_ok : (m : Step W) (r : ℕ × W) → (and_then m r).0 ≡ 0 → (r.0 ≡ 0) × (and_then m r ≡ m r.1)
  first_ok m (zero, w) e = (refl, refl)
  first_ok m (suc n, w) e = absurd (omega (arith, e))

  then_ok : (m : Step W) (r : ℕ × W) → r.0 ≡ 0 → and_then m r ≡ m r.1
  then_ok m (zero, w) e = refl
  then_ok m (suc n, w) e = absurd (omega (arith, e))

  all_added :
      (ks : List K) (w : W)
      → (for_each ks (send true) w).0 ≡ 0
      → All c.Fine ks
        × ((q : Q) → c.count q (for_each ks (send true) w).1 ≡ c.count q w + total q ks)
  unfolding for_each total
  all_added [] w e = (tt, λ q. omega arith)
  all_added (k ∷ ks) w e =
      let ok = first_ok (for_each ks (send true)) (send true k w) e in
      let one = c.added k w ok.0 in
      let rest = all_added ks (send true k w).1 (sym (ap (λ r. r.0) ok.1) ∙ e) in
      (
        (one.0, rest.0),
        λ q.
            let after : c.count q (for_each (k ∷ ks) (send true) w).1
                ≡ c.count q (for_each ks (send true) (send true k w).1).1 =
              ap (λ r. c.count q r.1) ok.1 in
            omega (arith, one.1 q, rest.1 q, after),
      )

  all_removed :
      (ks : List K) (w : W) (base : Q → ℕ)
      → All c.Fine ks
      → ((q : Q) → c.count q w ≡ base q + total q ks)
      → ((for_each ks (send false) w).0 ≡ 0)
        × ((q : Q) → c.count q (for_each ks (send false) w).1 ≡ base q)
  unfolding for_each total
  all_removed [] w base fine h = (refl, λ q. omega (arith, h q))
  all_removed (k ∷ ks) w base fine h =
      let one = c.removed k w fine.0 (λ q. omega (arith, h q)) in
      let step = then_ok (for_each ks (send false)) (send false k w) one.0 in
      let rest = all_removed ks (send false k w).1 base fine.1 (λ q. omega (arith, h q, one.1 q)) in
      (ap (λ r. r.0) step ∙ rest.0, λ q. ap (λ r. c.count q r.1) step ∙ rest.1 q)

  -- After a sequence that succeeded, the removing sequence succeeds and restores the counts.
  pub removed_after_added :
      (ks : List K) (w : W)
      → (for_each ks (send true) w).0 ≡ 0
      → let between = (for_each ks (send true) w).1 in
        let after = for_each ks (send false) between in
        (after.0 ≡ 0) × ((q : Q) → c.count q after.1 ≡ c.count q w)
  removed_after_added ks w e =
      let h = all_added ks w e in
      all_removed ks (for_each ks (send true) w).1 (λ q. c.count q w) h.0 h.1
