-- ===== src/Client/Answers/Read.antt =====
-- What the loop of `readData` of client/NetdClient.cpp reads, however the bytes come.
use system_netd.Prelude.{
  ℕ, zero, suc, ◌+◌, ◌-◌, ◌≤◌, ◌<◌, ◌≡◌, refl, sym, ◌∙◌, ap, inl, inr, true, false, List, [], ◌∷◌,
  ◌++◌, length, length-append, ◌==◌, Bool-cases, arith,
}
use system_netd.Prelude.Int.{ℤ, pos, ltb_ℤ}
use system_netd.Client.Answers.{chunk, Files, on_chunk, read_rest, read_data}

-- A `read` that took bytes off the front of what is still to be read.
pub record Took {W : Type 0} (files : Files W) (fd : ℤ) (content : W → List ℕ) (n : ℕ) (w : W)
    : Type 0 where
  pub byte : ℕ
  pub others : List ℕ
  pub after : W
  pub reads : files.read fd n w ≡ (chunk (byte ∷ others), after)
  pub split : content w ≡ (byte ∷ others) ++ content after
  pub bounded : length (byte ∷ others) ≤ n

-- A descriptor as a stream: as long as there are bytes, a `read` takes some of them, but no more than
-- it was asked for.
pub record Streams {W : Type 0} (files : Files W) (fd : ℤ) : Type 0 where
  pub content : W → List ℕ
  pub takes : (n : ℕ) (w : W) → 0 < n → 0 < length (content w) → Took files fd content n w

++-assoc : (xs ys zs : List ℕ) → (xs ++ ys) ++ zs ≡ xs ++ (ys ++ zs)
++-assoc [] ys zs = refl
++-assoc (x ∷ xs) ys zs = ap (λ (l : List ℕ). x ∷ l) (++-assoc xs ys zs)

module _ {W : Type 0} (files : Files W) (fd : ℤ) (s : Streams files fd) where
  -- Success, with as many bytes behind those that were there, and they are the front of the content.
  pub record Reads (size : ℕ) (got : List ℕ) (w : W) (r : ℕ × (List ℕ × W)) : Type 0 where
    pub answer : List ℕ
    pub after : W
    pub succeeds : r ≡ (0, (got ++ answer, after))
    pub whole : length answer ≡ size
    pub in_order : s.content w ≡ answer ++ s.content after

  module _ (left : ℕ) (got : List ℕ) (next : List ℕ → W → ℕ × (List ℕ × W)) (w : W)
      (t : Took files fd s.content left w) where
    abbrev taken : List ℕ
    taken = t.byte ∷ t.others

    last_round-Reads :
        (length taken == left) ≡ true
        → Reads left got w (on_chunk files left got next (files.read fd left w))
    unfolding on_chunk
    last_round-Reads last = record {
      answer = taken;
      after = t.after;
      succeeds = ap (on_chunk files left got next) t.reads ∙ rw last refl;
      whole = ground (arith, last);
      in_order = t.split;
    }

    round-Reads :
        (length taken == left) ≡ false
        → Reads (left - length taken) (got ++ taken) t.after (next taken t.after)
        → Reads left got w (on_chunk files left got next (files.read fd left w))
    unfolding on_chunk
    round-Reads more rest = record {
      answer = taken ++ rest.answer;
      after = rest.after;
      succeeds =
          ap (on_chunk files left got next) t.reads
          ∙ rw more (
              rest.succeeds
              ∙ ap (λ (l : List ℕ). (0, (l, rest.after))) (++-assoc got taken rest.answer));
      whole = omega (arith, length-append taken rest.answer, rest.whole, t.bounded);
      in_order =
          t.split
          ∙ (ap (λ (l : List ℕ). taken ++ l) rest.in_order
              ∙ sym (++-assoc taken rest.answer (s.content rest.after)));
    }

    left_in_stream : left ≤ length (s.content w) → left - length taken ≤ length (s.content t.after)
    left_in_stream c =
        omega (
          arith,
          c,
          length-append taken (s.content t.after),
          ap (λ (xs : List ℕ). length xs) t.split,
        )

  read_rest-Reads :
      (fuel left : ℕ) (got : List ℕ) (w : W)
      → left < fuel
      → 0 < left
      → left ≤ length (s.content w)
      → Reads left got w (read_rest files fuel fd left got w)
  unfolding read_rest
  read_rest-Reads zero left got w f l c = absurd (omega (arith, f))
  read_rest-Reads (suc fuel) left got w f l c =
      let t = s.takes left w l (omega (arith, l, c)) in
      let next : List ℕ → W → ℕ × (List ℕ × W) =
        λ more. read_rest files fuel fd (left - length more) (got ++ more) in
      let bounded = t.bounded in
      elim (Bool-cases (length (t.byte ∷ t.others) == left)) [
        | inl last ↦ last_round-Reads left got next w t last
        | inr more ↦ round-Reads left got next w t more (
            read_rest-Reads fuel (left - length (t.byte ∷ t.others)) (got ++ (t.byte ∷ t.others))
              t.after (omega (arith, f, l)) (ground (arith, more, bounded))
              (left_in_stream left got next w t c))
      ]

  -- From a stream that has as many bytes as asked for, at least one, `readData` reads exactly those,
  -- in order, however many each `read` gives.
  pub read_data-Reads :
      (size : ℕ) (w : W)
      → ltb_ℤ fd (pos 0) ≡ false
      → 0 < size
      → size ≤ length (s.content w)
      → Reads size [] w (read_data files fd size w)
  unfolding read_data
  read_data-Reads size w valid some_bytes enough =
      rw valid (read_rest-Reads (size + 1) size [] w (omega arith) some_bytes enough)
