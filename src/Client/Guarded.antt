-- ===== src/Client/Guarded.antt =====
-- What an app gets from `accept4`, `socket` and `connect` of client/NetdClient.cpp.
use system_netd.Prelude.{ℕ, ◌≡◌, ◌≢◌, Bool, true, false, ◌&&◌, not, none, ◌==◌, if◌then◌else◌}
use system_netd.Prelude.Int.{ℤ}
use system_netd.Prelude.Steps.{Step}
use system_netd.Controller.{netid_unset}
use system_netd.FwmarkServer.{on_accept, Answer, value, refused}
use system_netd.Client.{Channel, Local, command_of, should_set_fwmark, send}
use system_netd.Client.Shims.{Opened, opened, failed, Accepted, accepted, not_accepted, Libc}

-- A call that makes a descriptor, which is to be marked if `needs` holds. Either none was made, or the
-- app gets the one that was made, which needs no mark or is marked, or marking failed, the app gets
-- that failure, and the descriptor is closed.
pub data Guards {W : Type 0} (local : Local W) (made : Opened × W) (needs : Bool)
    (mark : ℤ → Step W) (r : Opened × W) : Type 0 where
  not_made : (e : ℕ) → made.0 ≡ failed e → r ≡ made → Guards local made needs mark r
  not_needed :
      (fd : ℤ) → made.0 ≡ opened fd → needs ≡ false → r ≡ made → Guards local made needs mark r
  marked :
      (fd : ℤ)
      → made.0 ≡ opened fd
      → (mark fd made.1).0 ≡ 0
      → r ≡ (opened fd, (mark fd made.1).1)
      → Guards local made needs mark r
  closed :
      (fd : ℤ)
      → made.0 ≡ opened fd
      → r ≡ (failed (mark fd made.1).0, local.close fd (mark fd made.1).1)
      → Guards local made needs mark r

-- Nothing was done, for a socket that needs no mark; or the server refused, and the app gets that
-- error, without a connection; or the app gets what `connect` gives.
pub data Connects {W : Type 0} (connect : Step W) (needs : Bool) (asked r : ℕ × W) (w : W)
    : Type 0 where
  not_marked : needs ≡ false → r ≡ connect w → Connects connect needs asked r w
  denied : needs ≡ true → asked.0 ≢ 0 → r ≡ asked → Connects connect needs asked r w
  tried : needs ≡ true → asked.0 ≡ 0 → r.0 ≡ (connect asked.1).0 → Connects connect needs asked r w

abbrev made_of : {W : Type 0} → Accepted × W → Opened × W
made_of (accepted fd family, w) = (opened fd, w)
made_of (not_accepted e, w) = (failed e, w)

abbrev peer_family : {W : Type 0} → Accepted × W → ℕ
peer_family (accepted fd family, w) = family
peer_family (not_accepted e, w) = 0

module _ {W : Type 0} (local : Local W) (channel : Channel W) (libc : Libc W) where
  abbrev pub needs_mark : ℕ → ℕ → W → Bool
  needs_mark net_id domain w = not (net_id == netid_unset) && should_set_fwmark local w domain

  abbrev pub ask_for_family : ℤ → Answer → Step W
  ask_for_family fd (refused e) w = (e, w)
  ask_for_family fd (value family) w =
      if should_set_fwmark local w family
      then send channel (command_of on_accept 0 0 0) fd none w
      else (0, w)

  -- What is asked for a new connection, on the family of the peer or of the socket.
  abbrev pub ask_to_accept : Bool → ℕ → ℤ → Step W
  ask_to_accept has_addr family fd w =
      ask_for_family fd (if has_addr then value family else local.get_domain w fd) w
