-- ===== src/Prelude/Strtoul.antt =====
-- The `strtoul` of C, on the bytes of a text without the NUL at the end, with an `unsigned long` of
-- 64 bits.
use Prim.Native.Nat.{ℕ, ◌+◌, ◌-◌, ◌*◌, ◌%◌, ◌^◌}
use mathlib.Core.Bool.{Bool, true, false, ◌&&◌, ◌||◌}
use mathlib.Core.List.{[], ◌∷◌}
use system_netd.Prelude.Tests.{ltb, leb, ◌==◌, if◌then◌else◌}
use system_netd.Prelude.Keys.{Name}

abbrev is_space : ℕ → Bool
is_space c = (c == 32) || (leb 9 c && leb c 13)

skip_spaces : Name → Name
skip_spaces [] = []
skip_spaces (c ∷ cs) = let rest = skip_spaces cs in if is_space c then rest else c ∷ cs

-- The digit of a byte in any base, and 36 for a byte that is none.
digit_of : ℕ → ℕ
digit_of c =
    if leb 48 c && leb c 57
    then c - 48
    else if leb 97 c && leb c 122
    then c - 87
    else if leb 65 c && leb c 90
    then c - 55
    else 36

read_digits : ℕ → ℕ → Name → ℕ × Name
unfolding digit_of
read_digits base value [] = (value, [])
read_digits base value (c ∷ cs) =
    let rest = read_digits base (value * base + digit_of c) cs in
    if ltb (digit_of c) base then rest else (value, c ∷ cs)

starts_digit : ℕ → Name → Bool
unfolding digit_of
starts_digit base [] = false
starts_digit base (c ∷ cs) = ltb (digit_of c) base

after_zero : Name → ℕ × Name
unfolding starts_digit
after_zero [] = (8, 48 ∷ [])
after_zero (c ∷ cs) =
    if ((c == 120) || (c == 88)) && starts_digit 16 cs then (16, cs) else (8, 48 ∷ c ∷ cs)

-- For base 0: the base, and the text of the digits.
base_of : Name → ℕ × Name
unfolding after_zero
base_of [] = (10, [])
base_of (c ∷ cs) = if c == 48 then after_zero cs else (10, c ∷ cs)

sign_of : Name → Bool × Name
sign_of [] = (false, [])
sign_of (c ∷ cs) = if c == 45 then (true, cs) else if c == 43 then (false, cs) else (false, c ∷ cs)

-- The value is at most ULONG_MAX; a minus sign negates it as an unsigned number.
clamp : Bool → ℕ → ℕ
clamp negative value =
    if leb (2 ^ 64) value then 2 ^ 64 - 1 else if negative then (2 ^ 64 - value) % 2 ^ 64 else value

-- The value, and the text at `endPtr`; the base is 0 or 10.
unfoldable pub strtoul : ℕ → Name → ℕ × Name
unfolding skip_spaces read_digits starts_digit base_of sign_of clamp
strtoul base text =
    let signed = sign_of (skip_spaces text) in
    let based = if base == 0 then base_of signed.1 else (base, signed.1) in
    let read = read_digits based.0 0 based.1 in
    if starts_digit based.0 based.1 then (clamp signed.0 read.0, read.1) else (0, text)
