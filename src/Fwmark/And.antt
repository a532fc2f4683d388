-- ===== src/Fwmark/And.antt =====
-- `&` on two marks works field by field.
use system_netd.Prelude.{
  ℕ, ◌+◌, ◌-◌, ◌*◌, ◌%◌, ◌^◌, ◌<◌, ◌≡◌, Bool, true, false, not, ◌&&◌, bit_and, arith, refl, ap, sym,
  ◌∙◌, ◌↔◌,
}
use system_netd.Prelude.Bits.{bit_and-fields, bit_and-le}
use system_netd.Fwmark.{Fwmark, int_value, bit, Fits, from_int_value, int_value-from_int_value}

unfoldable pub and_mark : Fwmark → Fwmark → Fwmark
and_mark a b = record {
  net_id = bit_and (a.net_id % 2 ^ 16) (b.net_id % 2 ^ 16);
  explicitly_selected = a.explicitly_selected && b.explicitly_selected;
  protected_from_vpn = a.protected_from_vpn && b.protected_from_vpn;
  permission = bit_and (a.permission % 4) (b.permission % 4);
  uid_billing_done = a.uid_billing_done && b.uid_billing_done;
  reserved = bit_and (a.reserved % 2 ^ 10) (b.reserved % 2 ^ 10);
  ingress_cpu_wakeup = a.ingress_cpu_wakeup && b.ingress_cpu_wakeup;
}

abbrev nest : ℕ → ℕ → ℕ → ℕ → ℕ → ℕ → ℕ → ℕ
nest n e p m u r c =
    n + (e + (p + (m + (u + (r + c * 2 ^ 10) * 2 ^ 1) * 2 ^ 2) * 2 ^ 1) * 2 ^ 1) * 2 ^ 16

nested :
    (m : Fwmark)
    → int_value m
      ≡ nest
          (m.net_id % 2 ^ 16)
          (bit m.explicitly_selected)
          (bit m.protected_from_vpn)
          (m.permission % 4)
          (bit m.uid_billing_done)
          (m.reserved % 2 ^ 10)
          (bit m.ingress_cpu_wakeup)
unfolding int_value
nested m = omega arith

bit-lt : (b : Bool) → bit b < 2 ^ 1
bit-lt true = omega arith
bit-lt false = omega arith

bit_and-bit : (a b : Bool) → bit_and (bit a) (bit b) ≡ bit (a && b)
bit_and-bit true true = refl
bit_and-bit true false = refl
bit_and-bit false true = refl
bit_and-bit false false = refl

module _ (n e p m u r c n' e' p' m' u' r' c' : ℕ) (hn : n < 2 ^ 16) (he : e < 2 ^ 1)
    (hp : p < 2 ^ 1) (hm : m < 2 ^ 2) (hu : u < 2 ^ 1) (hr : r < 2 ^ 10) (hn' : n' < 2 ^ 16)
    (he' : e' < 2 ^ 1) (hp' : p' < 2 ^ 1) (hm' : m' < 2 ^ 2) (hu' : u' < 2 ^ 1)
    (hr' : r' < 2 ^ 10) where
  bit_and-nest :
      bit_and (nest n e p m u r c) (nest n' e' p' m' u' r' c')
      ≡ nest
          (bit_and n n')
          (bit_and e e')
          (bit_and p p')
          (bit_and m m')
          (bit_and u u')
          (bit_and r r')
          (bit_and c c')
  bit_and-nest = omega (
    arith,
    bit_and-fields 16 n (e + (p + (m + (u + (r + c * 2 ^ 10) * 2 ^ 1) * 2 ^ 2) * 2 ^ 1) * 2 ^ 1) n'
        (e' + (p' + (m' + (u' + (r' + c' * 2 ^ 10) * 2 ^ 1) * 2 ^ 2) * 2 ^ 1) * 2 ^ 1) hn hn',
    bit_and-fields 1 e (p + (m + (u + (r + c * 2 ^ 10) * 2 ^ 1) * 2 ^ 2) * 2 ^ 1) e'
        (p' + (m' + (u' + (r' + c' * 2 ^ 10) * 2 ^ 1) * 2 ^ 2) * 2 ^ 1) he he',
    bit_and-fields 1 p (m + (u + (r + c * 2 ^ 10) * 2 ^ 1) * 2 ^ 2) p'
        (m' + (u' + (r' + c' * 2 ^ 10) * 2 ^ 1) * 2 ^ 2) hp hp',
    bit_and-fields 2 m (u + (r + c * 2 ^ 10) * 2 ^ 1) m' (u' + (r' + c' * 2 ^ 10) * 2 ^ 1) hm hm',
    bit_and-fields 1 u (r + c * 2 ^ 10) u' (r' + c' * 2 ^ 10) hu hu',
    bit_and-fields 10 r c r' c' hr hr',
  )

bit_and_cut : (a b k : ℕ) → 0 < k → bit_and (a % k) (b % k) % k ≡ bit_and (a % k) (b % k)
bit_and_cut a b k h = grind (arith, bit_and-le (a % k) (b % k))

pub bit_and-int_value :
    (a b : Fwmark) → bit_and (int_value a) (int_value b) ≡ int_value (and_mark a b)
unfolding and_mark
bit_and-int_value a b =
    rw
      (
        nested a,
        nested b,
        nested (and_mark a b),
        bit_and_cut a.net_id b.net_id (2 ^ 16) (omega arith),
        bit_and_cut a.permission b.permission 4 (omega arith),
        bit_and_cut a.reserved b.reserved (2 ^ 10) (omega arith),
        ← bit_and-bit a.explicitly_selected b.explicitly_selected,
        ← bit_and-bit a.protected_from_vpn b.protected_from_vpn,
        ← bit_and-bit a.uid_billing_done b.uid_billing_done,
        ← bit_and-bit a.ingress_cpu_wakeup b.ingress_cpu_wakeup,
      )
      (bit_and-nest (a.net_id % 2 ^ 16) (bit a.explicitly_selected) (bit a.protected_from_vpn)
        (a.permission % 4) (bit a.uid_billing_done) (a.reserved % 2 ^ 10) (bit a.ingress_cpu_wakeup)
        (b.net_id % 2 ^ 16) (bit b.explicitly_selected) (bit b.protected_from_vpn)
        (b.permission % 4) (bit b.uid_billing_done) (b.reserved % 2 ^ 10) (bit b.ingress_cpu_wakeup)
        (omega arith) (bit-lt a.explicitly_selected) (bit-lt a.protected_from_vpn) (omega arith)
        (bit-lt a.uid_billing_done) (omega arith) (omega arith) (bit-lt b.explicitly_selected)
        (bit-lt b.protected_from_vpn) (omega arith) (bit-lt b.uid_billing_done) (omega arith))

and_mark-Fits : (a b : Fwmark) → Fits (and_mark a b)
unfolding and_mark
and_mark-Fits a b = record {
  net_id = omega (arith, bit_and-le (a.net_id % 2 ^ 16) (b.net_id % 2 ^ 16));
  permission = omega (arith, bit_and-le (a.permission % 4) (b.permission % 4));
  reserved = omega (arith, bit_and-le (a.reserved % 2 ^ 10) (b.reserved % 2 ^ 10));
}

pub int_value-injective : (a b : Fwmark) → Fits a → Fits b → int_value a ≡ int_value b → a ≡ b
int_value-injective a b p q e =
    sym (int_value-from_int_value a 0 p (omega arith)).0
    ∙ ap from_int_value e
    ∙ (int_value-from_int_value b 0 q (omega arith)).0

-- Two marks agree under a mask exactly if their fields do.
pub masked-eq :
    (a b m : Fwmark)
    → (bit_and (int_value a) (int_value m) ≡ bit_and (int_value b) (int_value m))
      ↔ (and_mark a m ≡ and_mark b m)
masked-eq a b m = (
  λ e.
      int_value-injective (and_mark a m) (and_mark b m) (and_mark-Fits a m) (and_mark-Fits b m)
        (sym (bit_and-int_value a m) ∙ e ∙ bit_and-int_value b m),
  λ e. bit_and-int_value a m ∙ ap int_value e ∙ sym (bit_and-int_value b m),
)

-- The mark that has no bit of `m`.
unfoldable pub complement : Fwmark → Fwmark
complement m = record {
  net_id = 65535 - m.net_id % 2 ^ 16;
  explicitly_selected = not m.explicitly_selected;
  protected_from_vpn = not m.protected_from_vpn;
  permission = 3 - m.permission % 4;
  uid_billing_done = not m.uid_billing_done;
  reserved = 1023 - m.reserved % 2 ^ 10;
  ingress_cpu_wakeup = not m.ingress_cpu_wakeup;
}

pub int_value-complement : (m : Fwmark) → 2 ^ 32 - 1 - int_value m ≡ int_value (complement m)
unfolding int_value complement
int_value-complement m = ground arith
