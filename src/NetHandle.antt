-- ===== src/NetHandle.antt =====
-- The two conversions between netIds and `net_handle_t` in server/NetworkController.h. A mask of the
-- low 32 bits is a remainder, and a disjunction of bits that do not meet is a sum.
use system_netd.Prelude.{
  ℕ, ◌+◌, ◌*◌, ◌/◌, ◌%◌, ◌^◌, ◌<◌, ◌≡◌, ◌⊎◌, not, ◌&&◌, ◌==◌, if◌then◌else◌, arith,
}

-- `kHandleMagic`, 0xcafed00d
abbrev pub handle_magic : ℕ
handle_magic = 3405697037

-- of android/multinetwork.h
abbrev pub network_unspecified : ℕ
network_unspecified = 0

unfoldable pub net_handle_to_net_id : ℕ → ℕ
net_handle_to_net_id from_net_handle =
    if not (from_net_handle == network_unspecified)
      && not (from_net_handle % 2 ^ 32 == handle_magic)
    then 0
    else from_net_handle / 2 ^ 32 % 2 ^ 32

unfoldable pub net_id_to_net_handle : ℕ → ℕ
net_id_to_net_handle from_net_id =
    if from_net_id == 0 then network_unspecified else from_net_id * 2 ^ 32 + handle_magic

-- The handle of a 32-bit netId is a 64-bit word from which the netId is read back; and a 64-bit
-- handle is read as netId 0, or is the handle of the netId that it is read as.
net_handle_to_net_id-net_id_to_net_handle :
    (id handle : ℕ)
    → id < 2 ^ 32
    → handle < 2 ^ 64
    → (net_handle_to_net_id (net_id_to_net_handle id) ≡ id)
      × (net_id_to_net_handle id < 2 ^ 64)
      × ((net_handle_to_net_id handle ≡ 0)
          ⊎ (net_id_to_net_handle (net_handle_to_net_id handle) ≡ handle))
unfolding net_handle_to_net_id net_id_to_net_handle
net_handle_to_net_id-net_id_to_net_handle id handle h k = (ground arith, ground arith, ground arith)
