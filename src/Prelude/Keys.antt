-- ===== src/Prelude/Keys.antt =====
-- Keys of the ordered containers: `std::less` on the type, with the laws of a strict total order.
use Prim.Native.Nat.{ℕ}
use mathlib.Core.Path.{◌≡◌, refl}
use mathlib.Core.Logic.{◌↔◌}
use mathlib.Core.Bool.{Bool, true, false, ◌&&◌, ◌||◌}
use mathlib.Core.List.{List, [], ◌∷◌}
use native.Mathlib.Omega.{arith}
use system_netd.Prelude.Tests.{ltb, ◌==◌, ==_iff}
use system_netd.Prelude.Int.{ℤ, ltb_ℤ, eqb_ℤ, eq_of_parts}

pub record Key {ℓ} (K : Type ℓ) : Type ℓ where
  pub equal : K → K → Bool
  pub less : K → K → Bool
  pub equal_iff : (a b : K) → (equal a b ≡ true) ↔ (a ≡ b)
  pub less_irrefl : (a : K) → less a a ≡ false
  pub less_trans : (a b c : K) → less a b ≡ true → less b c ≡ true → less a c ≡ true
  pub less_total : (a b : K) → less a b ≡ false → less b a ≡ false → a ≡ b

pub ℕ-less_total : (a b : ℕ) → ltb a b ≡ false → ltb b a ≡ false → a ≡ b
ℕ-less_total a b p q = ground arith

pub ℕ-less_trans : (a b c : ℕ) → ltb a b ≡ true → ltb b c ≡ true → ltb a c ≡ true
ℕ-less_trans a b c p q = ground arith

pub ℕ-less_irrefl : (a : ℕ) → ltb a a ≡ false
ℕ-less_irrefl a = ground arith

instance abbrev pub nat_key : Key ℕ
nat_key = record {
  equal = ◌==◌;
  less = ltb;
  equal_iff = ==_iff;
  less_irrefl = ℕ-less_irrefl;
  less_trans = ℕ-less_trans;
  less_total = ℕ-less_total;
}

pub ℤ-equal_iff : (a b : ℤ) → (eqb_ℤ a b ≡ true) ↔ (a ≡ b)
ℤ-equal_iff a b = ground arith

pub ℤ-less_total : (a b : ℤ) → ltb_ℤ a b ≡ false → ltb_ℤ b a ≡ false → a ≡ b
ℤ-less_total a b p q = eq_of_parts a b (ground arith)

pub ℤ-less_trans : (a b c : ℤ) → ltb_ℤ a b ≡ true → ltb_ℤ b c ≡ true → ltb_ℤ a c ≡ true
ℤ-less_trans a b c p q = ground arith

pub ℤ-less_irrefl : (a : ℤ) → ltb_ℤ a a ≡ false
ℤ-less_irrefl a = ground arith

instance abbrev pub int_key : Key ℤ
int_key = record {
  equal = eqb_ℤ;
  less = ltb_ℤ;
  equal_iff = ℤ-equal_iff;
  less_irrefl = ℤ-less_irrefl;
  less_trans = ℤ-less_trans;
  less_total = ℤ-less_total;
}

-- `std::string`: the bytes, compared in lexicographic order.
abbrev pub Name : Type 0
Name = List ℕ

unfoldable pub names_equal : Name → Name → Bool
names_equal [] [] = true
names_equal [] (y ∷ ys) = false
names_equal (x ∷ xs) [] = false
names_equal (x ∷ xs) (y ∷ ys) = (x == y) && names_equal xs ys

unfoldable pub names_less : Name → Name → Bool
names_less [] [] = false
names_less [] (y ∷ ys) = true
names_less (x ∷ xs) [] = false
names_less (x ∷ xs) (y ∷ ys) = ltb x y || ((x == y) && names_less xs ys)

pub names-equal_iff : (a b : Name) → (names_equal a b ≡ true) ↔ (a ≡ b)
unfolding names_equal
names-equal_iff [] [] = (λ _. refl, λ _. refl)
names-equal_iff [] (y ∷ ys) = ground arith
names-equal_iff (x ∷ xs) [] = ground arith
names-equal_iff (x ∷ xs) (y ∷ ys) = ground (arith, names-equal_iff xs ys)

pub names-less_irrefl : (a : Name) → names_less a a ≡ false
unfolding names_less
names-less_irrefl [] = refl
names-less_irrefl (x ∷ xs) = ground (arith, names-less_irrefl xs)

pub names-less_trans :
    (a b c : Name) → names_less a b ≡ true → names_less b c ≡ true → names_less a c ≡ true
unfolding names_less
names-less_trans [] [] c p q = cc
names-less_trans [] (y ∷ ys) [] p q = cc
names-less_trans [] (y ∷ ys) (z ∷ zs) p q = refl
names-less_trans (x ∷ xs) [] c p q = cc
names-less_trans (x ∷ xs) (y ∷ ys) [] p q = cc
names-less_trans (x ∷ xs) (y ∷ ys) (z ∷ zs) p q = ground (arith, names-less_trans xs ys zs)

pub names-less_total : (a b : Name) → names_less a b ≡ false → names_less b a ≡ false → a ≡ b
unfolding names_less
names-less_total [] [] p q = refl
names-less_total [] (y ∷ ys) p q = cc
names-less_total (x ∷ xs) [] p q = cc
names-less_total (x ∷ xs) (y ∷ ys) p q = ground (arith, names-less_total xs ys)

instance abbrev pub name_key : Key Name
name_key = record {
  equal = names_equal;
  less = names_less;
  equal_iff = names-equal_iff;
  less_irrefl = names-less_irrefl;
  less_trans = names-less_trans;
  less_total = names-less_total;
}
