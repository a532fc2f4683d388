-- ===== src/Prelude/Performs.antt =====
-- A program that does the steps of a list one after the other, until one fails.
use Prim.Native.Nat.{ℕ, zero, suc}
use mathlib.Core.Path.{◌≡◌, refl, sym, ap, ◌∙◌}
use mathlib.Core.Bool.{Bool, true, false}
use mathlib.Core.List.{List, [], ◌∷◌, ◌++◌, map}
use system_netd.Prelude.Tests.{if◌then◌else◌}
use system_netd.Prelude.Lists.{All}
use system_netd.Prelude.Steps.{Step, and_then, ◌>>◌, succeed, when, for_each, on_second}

abbrev pub concat_map : {A B : Type 0} → (A → List B) → List A → List B
concat_map g [] = []
concat_map g (x ∷ xs) = g x ++ concat_map g xs

module _ {A W S : Type 0} (f : A → Step W) (embed : W → S) where
  abbrev pub embedded : ℕ × W → ℕ × S
  embedded r = (r.0, embed r.1)

  -- From a state of `S` that comes from one of `W`, the program does the steps of the list.
  pub record Performs (xs : List A) (m : Step S) : Type 0 where
    pub does : (w : W) → m (embed w) ≡ embedded (for_each xs f w)

  and_then_assoc :
      (m j k : Step W)
      → ((w : W) → m w ≡ and_then k (j w))
      → (r : ℕ × W) → and_then m r ≡ and_then k (and_then j r)
  and_then_assoc m j k h (zero, w) = h w
  and_then_assoc m j k h (suc e, w) = refl

  for_each-append :
      (xs ys : List A) (w : W)
      → for_each (xs ++ ys) f w ≡ and_then (for_each ys f) (for_each xs f w)
  unfolding for_each
  for_each-append [] ys w = refl
  for_each-append (x ∷ xs) ys w =
      and_then_assoc (for_each (xs ++ ys) f) (for_each xs f) (for_each ys f) (for_each-append xs ys)
        (f x w)

  and_then-embedded :
      (ys : List A) (k : Step S) (r : ℕ × W)
      → Performs ys k
      → and_then k (embedded r) ≡ embedded (and_then (for_each ys f) r)
  and_then-embedded ys k (zero, w) h = h.does w
  and_then-embedded ys k (suc e, w) h = refl

  pub Performs->> :
      (xs ys : List A) (m k : Step S) → Performs xs m → Performs ys k → Performs (xs ++ ys) (m >> k)
  Performs->> xs ys m k p q = record {
    does = λ w.
        ap (and_then k) (p.does w)
        ∙ and_then-embedded ys k (for_each xs f w) q
        ∙ ap embedded (sym (for_each-append xs ys w));
  }

  pub Performs-succeed : Performs [] succeed
  unfolding for_each
  Performs-succeed = record { does = λ w. refl }

  and_then-succeed : {T : Type 0} (r : ℕ × T) → and_then succeed r ≡ r
  and_then-succeed (zero, w) = refl
  and_then-succeed (suc e, w) = refl

  pub Performs-one :
      (x : A) (m : Step S) → ((w : W) → m (embed w) ≡ embedded (f x w)) → Performs (x ∷ []) m
  unfolding for_each
  Performs-one x m h = record { does = λ w. h w ∙ ap embedded (sym (and_then-succeed (f x w))) }

  pub Performs-when :
      (b : Bool) (xs : List A) (m : Step S)
      → Performs xs m
      → Performs (if b then xs else []) (when b m)
  Performs-when true xs m p = p
  Performs-when false xs m p = Performs-succeed

  -- A loop whose rounds do the steps of lists.
  pub Performs-for_each :
      {B : Type 0} (g : B → List A) (body : B → Step S) (bs : List B)
      → All (λ b. Performs (g b) (body b)) bs
      → Performs (concat_map g bs) (for_each bs body)
  unfolding for_each
  Performs-for_each g body [] h = Performs-succeed
  Performs-for_each g body (b ∷ bs) h =
      Performs->> (g b) (concat_map g bs) (body b) (for_each bs body) h.0
        (Performs-for_each g body bs h.1)

  pub all_perform :
      {B : Type 0} (g : B → List A) (body : B → Step S)
      → ((b : B) → Performs (g b) (body b))
      → (bs : List B) → All (λ b. Performs (g b) (body b)) bs
  all_perform g body h [] = tt
  all_perform g body h (b ∷ bs) = (h b, all_perform g body h bs)

  pub Performs-map :
      {B : Type 0} (item : B → A) (body : B → Step S)
      → ((b : B) → Performs (item b ∷ []) (body b))
      → (bs : List B) → Performs (map item bs) (for_each bs body)
  unfolding for_each
  Performs-map item body h [] = Performs-succeed
  Performs-map item body h (b ∷ bs) =
      Performs->> (item b ∷ []) (map item bs) (body b) (for_each bs body) (h b)
        (Performs-map item body h bs)

-- A program on the second component of the state.
pub Performs-on_second :
    {A B W : Type 0} (f : A → Step W) (b : B) (xs : List A) (m : Step W)
    → Performs f (λ w. w) xs m
    → Performs f (λ w. (b, w)) xs (on_second m)
Performs-on_second f b xs m p = record { does = λ w. ap (embedded f (λ w. (b, w))) (p.does w) }
