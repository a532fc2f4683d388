-- ===== src/Prelude/Steps.antt =====
-- Operations that return an `int`: 0, or a negative errno. A `Step` passes the state on and returns
-- the errno that the source negates, 0 for success. `if (int ret = m) return ret;` is `m >> k`.
use Prim.Native.Nat.{ℕ, zero, suc}
use mathlib.Core.Bool.{Bool}
use mathlib.Core.List.{List, [], ◌∷◌}
use system_netd.Prelude.Tests.{if◌then◌else◌}

abbrev pub Step : Type 0 → Type 0
Step S = S → ℕ × S

-- What follows a call, on its result.
abbrev pub and_then : {S : Type 0} → Step S → ℕ × S → ℕ × S
and_then k (zero, s) = k s
and_then k (suc e, s) = (suc e, s)

infixl 5 ◌>>◌
abbrev pub ◌>>◌ : {S : Type 0} → Step S → Step S → Step S
◌>>◌ m k s = and_then k (m s)

abbrev pub succeed : {S : Type 0} → Step S
succeed s = (0, s)

abbrev pub fail : {S : Type 0} → ℕ → Step S
fail e s = (e, s)

-- A statement that changes the state and returns nothing.
abbrev pub update : {S : Type 0} → (S → S) → Step S
update f s = (0, f s)

-- `(void) m`: the result is dropped.
abbrev pub ignore : {S : Type 0} → Step S → Step S
ignore m s = (0, (m s).1)

abbrev pub when : {S : Type 0} → Bool → Step S → Step S
when b m = if b then m else succeed

-- `for (x : xs) { if (int ret = f(x)) return ret; }`
unfoldable pub for_each : {A S : Type 0} → List A → (A → Step S) → Step S
for_each [] f = succeed
for_each (x ∷ xs) f = f x >> for_each xs f

-- A step of a component of the state.
abbrev pub on_second : {A S : Type 0} → Step S → Step (A × S)
on_second m (a, s) = ((m s).0, (a, (m s).1))

-- A call into the rest of the system and, if it succeeds, a change of the object's own fields.
unfoldable pub commit : {A S : Type 0} → Step S → (A → A) → Step (A × S)
commit m g = on_second m >> update (λ s. (g s.0, s.1))

-- What holds at every success of `m` followed by `k`, and at every failure, holds at the end.
pub and_then_keeps :
    {S : Type 0} (P : S → Type 0) (k : Step S) (r : ℕ × S)
    → P r.1
    → ((s : S) → P s → P (k s).1)
    → P (and_then k r).1
and_then_keeps P k (zero, s) h keep = keep s h
and_then_keeps P k (suc e, s) h keep = h

-- A loop keeps what each of its rounds keeps.
pub for_each_keeps :
    {A S : Type 0} (P : S → Type 0) (xs : List A) (f : A → Step S)
    → ((x : A) (s : S) → P s → P (f x s).1)
    → (s : S) → P s
    → P (for_each xs f s).1
unfolding for_each
for_each_keeps P [] f keep s h = h
for_each_keeps P (x ∷ xs) f keep s h =
    and_then_keeps P (for_each xs f) (f x s) (keep x s h) (for_each_keeps P xs f keep)
