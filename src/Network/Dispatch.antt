-- ===== src/Network/Dispatch.antt =====
-- The virtual methods of `Network`, on the class of the object, and `clearInterfaces`, which calls
-- one of them. A method that a class does not override returns -EINVAL (server/Network.h).
use system_netd.Prelude.{ℕ, zero, suc, List, [], ◌∷◌, length}
use system_netd.Prelude.Int.{ℤ}
use system_netd.Prelude.Keys.{Name}
use system_netd.Prelude.Steps.{Step, ◌>>◌, fail, succeed}
use system_netd.UidRanges.{UidRanges}
use system_netd.Errno.{einval}
use system_netd.Platform.{Platform}
use system_netd.Network.{Network, Kind, physical, virtual, unreachable, dummy, local}
use system_netd.Network.Physical
use system_netd.Network.Simple

module _ {W : Type 0} (p : Platform W) (vpns : List ℕ) where
  unfoldable pub add_interface_of : Kind → Name → Step (Network × W)
  unfolding Physical.add_interface Simple.add_interface_to_virtual Simple.add_interface_to_local
  add_interface_of (physical f) interface = Physical.add_interface p vpns f interface
  add_interface_of (virtual e) interface = Simple.add_interface_to_virtual p e interface
  add_interface_of unreachable interface = fail einval
  add_interface_of dummy interface = fail einval
  add_interface_of local interface = Simple.add_interface_to_local p interface

  unfoldable pub add_interface : Name → Step (Network × W)
  unfolding add_interface_of
  add_interface interface s = add_interface_of (s.0).kind interface s

  unfoldable pub remove_interface_of : Kind → Name → Step (Network × W)
  unfolding Physical.remove_interface Simple.remove_interface_from_virtual
      Simple.remove_interface_from_local
  remove_interface_of (physical f) interface = Physical.remove_interface p vpns f interface
  remove_interface_of (virtual e) interface = Simple.remove_interface_from_virtual p e interface
  remove_interface_of unreachable interface = fail einval
  remove_interface_of dummy interface = fail einval
  remove_interface_of local interface = Simple.remove_interface_from_local p interface

  unfoldable pub remove_interface : Name → Step (Network × W)
  unfolding remove_interface_of
  remove_interface interface s = remove_interface_of (s.0).kind interface s

  unfoldable pub add_users_of : Kind → UidRanges → ℤ → Step (Network × W)
  unfolding Physical.add_users Simple.add_users_to_virtual Simple.add_users_to_unreachable
  add_users_of (physical f) ranges priority = Physical.add_users p vpns f ranges priority
  add_users_of (virtual e) ranges priority = Simple.add_users_to_virtual p e ranges priority
  add_users_of unreachable ranges priority = Simple.add_users_to_unreachable p ranges priority
  add_users_of dummy ranges priority = fail einval
  add_users_of local ranges priority = fail einval

  unfoldable pub add_users : UidRanges → ℤ → Step (Network × W)
  unfolding add_users_of
  add_users ranges priority s = add_users_of (s.0).kind ranges priority s

  unfoldable pub remove_users_of : Kind → UidRanges → ℤ → Step (Network × W)
  unfolding Physical.remove_users Simple.remove_users_from_virtual
      Simple.remove_users_from_unreachable
  remove_users_of (physical f) ranges priority = Physical.remove_users p vpns f ranges priority
  remove_users_of (virtual e) ranges priority = Simple.remove_users_from_virtual p e ranges priority
  remove_users_of unreachable ranges priority =
      Simple.remove_users_from_unreachable p ranges priority
  remove_users_of dummy ranges priority = fail einval
  remove_users_of local ranges priority = fail einval

  unfoldable pub remove_users : UidRanges → ℤ → Step (Network × W)
  unfolding remove_users_of
  remove_users ranges priority s = remove_users_of (s.0).kind ranges priority s

  -- One round of `while (!mInterfaces.empty())`, with the rounds behind it.
  unfoldable pub clear_round : List Name → Step (Network × W) → Step (Network × W)
  clear_round [] rest = succeed
  clear_round (i ∷ is) rest = remove_interface i >> rest

  unfoldable pub clear_loop : ℕ → Step (Network × W)
  unfolding clear_round
  clear_loop zero s = (0, s)
  clear_loop (suc fuel) s = clear_round (s.0).interfaces (clear_loop fuel) s

  -- A round that does not return takes an interface off, so the fuel is enough.
  unfoldable pub clear_interfaces : Step (Network × W)
  unfolding clear_loop
  clear_interfaces s = clear_loop (length (s.0).interfaces) s
