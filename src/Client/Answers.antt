-- ===== src/Client/Answers.antt =====
-- client/NetdClient.cpp: the answers of the resolver, read from its local socket.
pub mod Read
use system_netd.Prelude.{
  ℕ, zero, suc, ◌+◌, ◌-◌, ◌*◌, ◌/◌, ◌%◌, ◌^◌, Bool, true, false, not, Option, none, some, List, [],
  ◌∷◌, ◌++◌, bytes, length, ltb, ◌==◌, if◌then◌else◌,
}
use system_netd.Prelude.Int.{ℤ, pos, negsuc, ltb_ℤ, eqb_ℤ, to_int32, to_uint32}
use system_netd.Prelude.Keys.{Name}
use system_netd.Prelude.Steps.{Step}
use system_netd.Errno.{eperm, ebadf, eio, einval, enosys, emsgsize, eopnotsupp, eremoteio}
use system_netd.Controller.{netid_unset}
use system_netd.Client.Shims.{Opened, opened, failed}

-- A `read`: an `errno`, or the bytes; no byte is the end.
pub data Chunk : Type 0 where
  read_failed : ℕ → Chunk
  chunk : List ℕ → Chunk

-- A `write`: an `errno`, or how many bytes.
pub data Written : Type 0 where
  write_failed : ℕ → Written
  written : ℕ → Written

-- The calls on the socket of the resolver. `is_local_mode` is the variable ANDROID_DNS_MODE,
-- `last_errno` the `errno` that the last call that failed left.
pub record Files (W : Type 0) : Type 0 where
  pub is_local_mode : W → Bool
  pub open_proxy : W → Opened × W
  pub connect_proxy : ℤ → Step W
  pub read : ℤ → ℕ → W → Chunk × W
  pub write : ℤ → List ℕ → W → Written × W
  pub shutdown : ℤ → W → W
  pub close : ℤ → W → W
  pub last_errno : W → ℕ

-- `ntohl` of the four bytes of a word
abbrev pub be32 : List ℕ → Option ℤ
be32 (a ∷ b ∷ c ∷ d ∷ []) = some (to_int32 (a * 2 ^ 24 + b * 2 ^ 16 + c * 2 ^ 8 + d))
be32 _ = none

abbrev pub chunk_word : Chunk → Option ℤ
chunk_word (read_failed e) = none
chunk_word (chunk word) = be32 word

-- What `resNetworkResult` gives: an error, or the rcode and the answer.
pub data Result : Type 0 where
  refused_with : ℕ → Result
  result : ℕ → List ℕ → Result

module _ {W : Type 0} (files : Files W) where
  -- What a round of `readData` does with what it read; `next` is the next round.
  unfoldable pub on_chunk :
      ℕ → List ℕ → (List ℕ → W → ℕ × (List ℕ × W)) → Chunk × W → ℕ × (List ℕ × W)
  on_chunk left got next (read_failed e, w) = (e, (got, w))
  on_chunk left got next (chunk [], w) = (eio, (got, w))
  on_chunk left got next (chunk (b ∷ bs), w) =
      if length (b ∷ bs) == left then (0, (got ++ (b ∷ bs), w)) else next (b ∷ bs) w

  -- The loop, with fuel: `left` bytes are to come, `got` are there.
  unfoldable pub read_rest : ℕ → ℤ → ℕ → List ℕ → W → ℕ × (List ℕ × W)
  unfolding on_chunk
  read_rest zero fd left got w = (eio, (got, w))
  read_rest (suc fuel) fd left got w =
      on_chunk left got (λ more. read_rest fuel fd (left - length more) (got ++ more))
        (files.read fd left w)

  -- A round that does not end the loop reads a byte at least.
  unfoldable pub read_data : ℤ → ℕ → W → ℕ × (List ℕ × W)
  unfolding read_rest
  read_data fd size w =
      if ltb_ℤ fd (pos 0) then (ebadf, ([], w)) else read_rest (size + 1) fd size [] w

  -- A word that is not whole is an error.
  unfoldable pub read_be32 : ℤ → W → Option ℤ × W
  read_be32 fd w = let r = files.read fd 4 w in (chunk_word r.0, r.1)

  unfoldable pub answer_of : ℕ → ℕ × (List ℕ × W) → Result × W
  answer_of rcode (error, (answer, w)) =
      if error == 0 then (result rcode answer, w) else (refused_with error, w)

  -- What follows the size: a negative one is more than any buffer has.
  unfoldable pub read_answer : ℤ → ℕ → ℕ → Option ℤ × W → Result × W
  unfolding answer_of read_data
  read_answer fd anslen rcode (none, w) = (refused_with eremoteio, w)
  read_answer fd anslen rcode (some (negsuc n), w) = (refused_with emsgsize, w)
  read_answer fd anslen rcode (some (pos size), w) =
      if ltb anslen size then (refused_with emsgsize, w) else answer_of rcode (read_data fd size w)

  unfoldable pub read_result : ℤ → ℕ → Option ℤ × W → Result × W
  unfolding read_answer read_be32
  read_result fd anslen (none, w) = (refused_with (files.last_errno w), w)
  read_result fd anslen (some (negsuc n), w) = (refused_with (n + 1), w)
  read_result fd anslen (some (pos rcode), w) = read_answer fd anslen rcode (read_be32 fd w)

  -- The descriptor is closed at the end.
  unfoldable pub res_network_result : ℤ → ℕ → W → Result × W
  unfolding read_result read_be32
  res_network_result fd anslen w =
      let r = read_result fd anslen (read_be32 fd w) in (r.0, files.close fd r.1)
