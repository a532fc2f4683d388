-- ===== src/Fwmark.antt =====
-- include/Fwmark.h and include/Permission.h: the 32-bit socket mark and the permission bits.
-- The bit-fields are laid out from the lowest bit up, as the compilers for Android lay them out.
pub mod And
use system_netd.Prelude.{
  ℕ, ◌+◌, ◌*◌, ◌/◌, ◌%◌, ◌^◌, ◌<◌, ◌≡◌, Bool, true, false, ◌==◌, if◌then◌else◌, bit_and, arith,
}

-- `enum Permission`; a value from a mark or from a disjunction of flags can be any two bits
abbrev pub permission_none : ℕ
permission_none = 0

abbrev pub permission_network : ℕ
permission_network = 1

abbrev pub permission_system : ℕ
permission_system = 3

-- `(held & needed) == needed`
unfoldable pub has_permission : ℕ → ℕ → Bool
has_permission held needed = bit_and held needed == needed

pub record Fwmark : Type 0 where
  pub net_id : ℕ
  pub explicitly_selected : Bool
  pub protected_from_vpn : Bool
  pub permission : ℕ
  pub uid_billing_done : Bool
  pub reserved : ℕ
  pub ingress_cpu_wakeup : Bool

unfoldable pub empty_mark : Fwmark
empty_mark = record {
  net_id = 0;
  explicitly_selected = false;
  protected_from_vpn = false;
  permission = 0;
  uid_billing_done = false;
  reserved = 0;
  ingress_cpu_wakeup = false;
}

abbrev bit : Bool → ℕ
bit b = if b then 1 else 0

-- reading `intValue`: each field is cut to its width
unfoldable pub int_value : Fwmark → ℕ
int_value m =
    m.net_id % 2 ^ 16
    + bit m.explicitly_selected * 2 ^ 16
    + bit m.protected_from_vpn * 2 ^ 17
    + m.permission % 4 * 2 ^ 18
    + bit m.uid_billing_done * 2 ^ 20
    + m.reserved % 2 ^ 10 * 2 ^ 21
    + bit m.ingress_cpu_wakeup * 2 ^ 31

abbrev test_bit : ℕ → ℕ → Bool
test_bit v k = v / 2 ^ k % 2 == 1

-- writing `intValue`
unfoldable pub from_int_value : ℕ → Fwmark
from_int_value v = record {
  net_id = v % 2 ^ 16;
  explicitly_selected = test_bit v 16;
  protected_from_vpn = test_bit v 17;
  permission = v / 2 ^ 18 % 4;
  uid_billing_done = test_bit v 20;
  reserved = v / 2 ^ 21 % 2 ^ 10;
  ingress_cpu_wakeup = test_bit v 31;
}

unfoldable pub get_uid_billing_mask : ℕ
unfolding int_value empty_mark
get_uid_billing_mask = int_value (record empty_mark { uid_billing_done = true })

-- Every field holds what fits its width.
pub record Fits (m : Fwmark) : Type 0 where
  pub net_id : m.net_id < 2 ^ 16
  pub permission : m.permission < 4
  pub reserved : m.reserved < 2 ^ 10

-- A mark is a 32-bit word that holds each field, and every 32-bit word is the mark of its fields.
pub int_value-from_int_value :
    (m : Fwmark) (v : ℕ)
    → Fits m
    → v < 2 ^ 32
    → (from_int_value (int_value m) ≡ m)
      × (int_value (from_int_value v) ≡ v)
      × (int_value m < 2 ^ 32)
unfolding int_value from_int_value
int_value-from_int_value m v fits h = (ground arith, ground arith, ground arith)
