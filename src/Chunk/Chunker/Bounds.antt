-- ===== src/Chunk/Chunker/Bounds.antt =====
-- The sizes of the pieces that `ChunkWithData` returns.
use vault_drift.Common.{
  ℕ, ◌+◌, ◌≤◌, ◌<◌, ◌≡◌, refl, ◌∙◌, sym, String, true, false, List, [], ◌∷◌, ◌++◌, arith, length,
  length-append, All, All-append, Bool-cases, inl, inr, ltb,
}
use mathlib.Core.List.{append-nil}
use vault_drift.Chunk.Rabin.{Chunker, at_boundary}
use vault_drift.Chunk.Chunker.{
  Reader, eof, fails, more, ok, ChunkInfo, Collecting, collect_byte, collect_bytes, collect_rest,
  collect_reader, chunk_with_data, start_collecting,
}
use vault_drift.Chunk.Chunker.Contents.{collect_byte-cut, collect_byte-keep, ends, buffer}

-- A piece that the boundary test has cut off.
abbrev pub IsFull : Chunker → List ℕ → Type 0
IsFull c d = (0 < length d) × (c.min_size ≤ length d) × (length d ≤ c.max_size)

-- Pieces that are cut off, and at most one more, which the end of the input leaves.
pub record IsBounded (c : Chunker) (pieces : List (List ℕ)) : Type 0 where
  pub full : List (List ℕ)
  pub last : List (List ℕ)
  pub split : pieces ≡ full ++ last
  pub full_sizes : All (IsFull c) full
  pub last_size : All (λ d. (0 < length d) × (length d < c.max_size)) last
  pub one_last : length last ≤ 1

module _ (sha : List ℕ → String) (c : Chunker) (low : c.min_size ≤ c.max_size)
    (high : 0 < c.max_size) where
  record Fits (s : Collecting) : Type 0 where
    all_full : All (IsFull c) s.chunk_data
    room : length s.chunk_buf < c.max_size

  boundary_size :
      (n fp : ℕ) → n ≤ c.max_size → at_boundary c n fp ≡ true → (c.min_size ≤ n) × (n ≤ c.max_size)
  boundary_size n fp h e = unfold at_boundary in ground arith

  inside_size : (n fp : ℕ) → n ≤ c.max_size → at_boundary c n fp ≡ false → n < c.max_size
  inside_size n fp h e = unfold at_boundary in ground arith

  collect_byte-Fits : (b : ℕ) (s : Collecting) → Fits s → Fits (collect_byte sha c b s)
  collect_byte-Fits b s h = elim (Bool-cases (ends sha c b s)) [
    | inl cut ↦ rw (collect_byte-cut sha c b s cut) (record {
      all_full =
          All-append (IsFull c) s.chunk_data (buffer sha c b s ∷ []) h.all_full
            ((omega (arith, longer), omega (arith, sizes cut), omega (arith, sizes cut)), tt);
      room = high;
    })
    | inr keep ↦ rw (collect_byte-keep sha c b s keep) (record {
      all_full = h.all_full;
      room = inside_size _ _ (omega (arith, longer, h.room)) keep;
    })
  ]
    where
      longer : length (s.chunk_buf ++ b ∷ []) ≡ length s.chunk_buf + 1
      longer = length-append s.chunk_buf (b ∷ []) ∙ omega arith

      sizes :
          ends sha c b s ≡ true
          → (c.min_size ≤ length (buffer sha c b s)) × (length (buffer sha c b s) ≤ c.max_size)
      sizes cut = boundary_size _ _ (omega (arith, longer, h.room)) cut

  collect_bytes-Fits : (bs : List ℕ) (s : Collecting) → Fits s → Fits (collect_bytes sha c bs s)
  unfolding collect_bytes
  collect_bytes-Fits [] s h = h
  collect_bytes-Fits (b ∷ bs) s h =
      collect_bytes-Fits bs (collect_byte sha c b s) (collect_byte-Fits b s h)

  collect_rest-IsBounded : (s : Collecting) → Fits s → IsBounded c (collect_rest sha c s).1
  unfolding collect_rest
  collect_rest-IsBounded s h = elim (Bool-cases (ltb 0 (length s.chunk_buf))) [
    | inl left ↦ rw left (record {
      full = s.chunk_data;
      last = s.chunk_buf ∷ [];
      split = refl;
      full_sizes = h.all_full;
      last_size = ((ground arith, h.room), tt);
      one_last = omega arith;
    })
    | inr nothing ↦ rw nothing (record {
      full = s.chunk_data;
      last = [];
      split = sym (append-nil s.chunk_data);
      full_sizes = h.all_full;
      last_size = tt;
      one_last = omega arith;
    })
  ]

  collect_reader-IsBounded :
      (r : Reader) (s : Collecting) (a : List ChunkInfo × List (List ℕ))
      → Fits s
      → collect_reader sha c r s ≡ ok a
      → IsBounded c a.1
  unfolding collect_reader
  collect_reader-IsBounded (eof bs) s a h e =
      let q : collect_rest sha c (collect_bytes sha c bs s) ≡ a = cc in
      rw (← q) (collect_rest-IsBounded (collect_bytes sha c bs s) (collect_bytes-Fits bs s h))
  collect_reader-IsBounded (fails bs x) s a h e = absurd (cc)
  collect_reader-IsBounded (more bs r) s a h e =
      collect_reader-IsBounded r (collect_bytes sha c bs s) a (collect_bytes-Fits bs s h) e

-- With `min <= max` and `max > 0`, a result of `ChunkWithData` consists of pieces of at least
-- `min`, at least one and at most `max` bytes, and perhaps one more at the end, of at least one
-- and fewer than `max` bytes.
pub chunk_with_data-IsBounded :
    (sha : List ℕ → String) (c : Chunker)
    → c.min_size ≤ c.max_size
    → 0 < c.max_size
    → (r : Reader) (infos : List ChunkInfo) (pieces : List (List ℕ))
    → chunk_with_data sha c r ≡ ok (infos, pieces)
    → IsBounded c pieces
unfolding chunk_with_data
chunk_with_data-IsBounded sha c low high r infos pieces e =
    collect_reader-IsBounded sha c low high r (start_collecting c) (infos, pieces)
      (record { all_full = tt; room = high }) e
