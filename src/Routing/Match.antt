-- ===== src/Routing/Match.antt =====
-- Which packets a rule is for. The specification is the comment above `modifyIpRule` of
-- server/RouteController.cpp: a rule for a mark, interfaces and UIDs matches a packet that has them.
use system_netd.Prelude.{
  ℕ, ◌≡◌, ◌↔◌, Bool, true, false, ◌&&◌, ◌||◌, Option, none, some, leb, ◌==◌, ==_iff, bit_and,
}
use system_netd.Prelude.Keys.{Name, names_equal}
use system_netd.Fwmark.{Fwmark, int_value}
use system_netd.Fwmark.And.{and_mark, masked-eq}
use system_netd.Routing.{Rule, invalid_uid}

pub record Packet : Type 0 where
  pub mark : Fwmark
  pub uid : ℕ
  pub iif : Name
  pub oif : Option Name

abbrev named : Option Name → Name → Bool
named none name = true
named (some wanted) name = names_equal wanted name

abbrev leaves_by : Option Name → Option Name → Bool
leaves_by none name = true
leaves_by (some wanted) none = false
leaves_by (some wanted) (some name) = names_equal wanted name

abbrev pub uid_in : ℕ → ℕ → ℕ → Bool
uid_in start stop uid = leb start uid && leb uid stop

unfoldable pub matches : Rule → Packet → Bool
matches r p =
    (bit_and (int_value p.mark) r.mask == bit_and r.fwmark r.mask)
    && ((r.uid_start == invalid_uid) || uid_in r.uid_start r.uid_end p.uid)
    && named r.iif p.iif
    && leaves_by r.oif p.oif

-- The mark of a packet under a mask, by fields.
pub marks_agree :
    (p f m : Fwmark)
    → ((bit_and (int_value p) (int_value m) == bit_and (int_value f) (int_value m)) ≡ true)
      ↔ (and_mark p m ≡ and_mark f m)
marks_agree p f m =
    (λ e. (masked-eq p f m).0 ((==_iff _ _).0 e), λ e. (==_iff _ _).1 ((masked-eq p f m).1 e))
