-- ===== src/Tests/Ranges.antt =====
-- server/UidRanges.cpp and include/Fwmark.h at concrete values.
use system_netd.Prelude.{◌≡◌, ◌^◌, ◌<◌, refl, true, false, ◌&&◌, List, [], ◌∷◌, leb, arith}
use system_netd.Prelude.Int.{pos}
use system_netd.UidRanges.{
  UidRangeParcel, UidRanges, int32_max, from_parcels, add, has_uid, overlaps_self,
}
use system_netd.UidRanges.Membership.{holds}
use system_netd.UidRanges.Overlap.{has_uid-from_parcels}
use system_netd.UidRanges.Hidden.{one_range, has_uid-add}
use system_netd.Fwmark.{Fwmark, int_value, from_int_value, int_value-from_int_value}

abbrev apps : UidRanges
apps = one_range 10000 10099

abbrev guests : UidRanges
guests = one_range 110000 110099

abbrev parcels : List UidRangeParcel
parcels =
    record { start = pos 110000; stop = pos 110099 }
    ∷ record { start = pos 10000; stop = pos 10099 }
    ∷ []

apart_test : overlaps_self (from_parcels parcels) ≡ false
unfolding overlaps_self from_parcels
apart_test = refl

has_uid-from_parcels_example :
    has_uid (from_parcels parcels) 10050 ≡ (leb 10050 int32_max && holds (pos 10050) parcels)
has_uid-from_parcels_example =
    has_uid-from_parcels parcels 10050 (omega arith, (omega arith, tt)) apart_test

has_uid-add_example :
    (has_uid (one_range 1 10) 5 ≡ true)
    × (overlaps_self (one_range 1 10) ≡ false)
    × (overlaps_self (one_range 2 3) ≡ false)
    × (has_uid (add (one_range 1 10) (one_range 2 3)) 5 ≡ false)
has_uid-add_example =
    has_uid-add 1 10 2 3 5 (omega arith) (omega arith) (omega arith) (omega arith) (omega arith)

abbrev mark : Fwmark
mark = record {
  net_id = 100;
  explicitly_selected = true;
  protected_from_vpn = false;
  permission = 3;
  uid_billing_done = false;
  reserved = 0;
  ingress_cpu_wakeup = false;
}

int_value-from_int_value_example :
    (from_int_value (int_value mark) ≡ mark)
    × (int_value (from_int_value 65636) ≡ 65636)
    × (int_value mark < 2 ^ 32)
int_value-from_int_value_example =
    int_value-from_int_value mark 65636
      (record { net_id = omega arith; permission = omega arith; reserved = omega arith })
      (omega arith)
