-- ===== src/Chunk/Chunker/Agreement.antt =====
-- `Chunk` and `ChunkWithData` carry the same loop twice; they cut the same way.
use vault_drift.Common.{
  ℕ, ◌≡◌, refl, ◌∙◌, ap, String, List, [], ◌∷◌, ◌++◌, length, Bool-cases, inl, inr, ltb,
}
use vault_drift.Chunk.Rabin.{Chunker, roll, at_boundary}
use vault_drift.Chunk.Chunker.{
  Reader, eof, fails, more, Result, ok, err, Cutting, cut_byte, cut_bytes, cut_rest, cut_reader,
  chunk, Collecting, collect_byte, collect_bytes, collect_rest, collect_reader, chunk_with_data,
  start_collecting,
}

abbrev pub map_ok {ℓ κ} : {A : Type ℓ} {B : Type κ} → (A → B) → Result A → Result B
map_ok f (ok a) = ok (f a)
map_ok f (err e) = err e

-- The state of `Chunk` that a state of `ChunkWithData` stands for.
abbrev forget : Collecting → Cutting
forget s = record {
  chunk_buf = s.chunk_buf;
  chunk_offset = s.chunk_offset;
  offset = s.offset;
  window = s.window;
  chunks = s.chunks;
}

module _ (sha : List ℕ → String) (c : Chunker) where
  cut_byte-forget :
      (b : ℕ) (s : Collecting) → cut_byte sha c b (forget s) ≡ forget (collect_byte sha c b s)
  unfolding cut_byte collect_byte
  cut_byte-forget b s =
      elim (Bool-cases
        (at_boundary c (length (s.chunk_buf ++ b ∷ [])) (roll c b s.window).fingerprint)) [
          | inl cut ↦ rw cut
          | inr keep ↦ rw keep
        ]

  cut_bytes-forget :
      (bs : List ℕ) (s : Collecting)
      → cut_bytes sha c bs (forget s) ≡ forget (collect_bytes sha c bs s)
  unfolding cut_bytes collect_bytes
  cut_bytes-forget [] s = refl
  cut_bytes-forget (b ∷ bs) s =
      ap (cut_bytes sha c bs) (cut_byte-forget b s) ∙ cut_bytes-forget bs (collect_byte sha c b s)

  cut_rest-forget : (s : Collecting) → cut_rest sha c (forget s) ≡ (collect_rest sha c s).0
  unfolding cut_rest collect_rest
  cut_rest-forget s = elim (Bool-cases (ltb 0 (length s.chunk_buf))) [
    | inl left ↦ rw left
    | inr nothing ↦ rw nothing
  ]

  cut_reader-forget :
      (r : Reader) (s : Collecting)
      → cut_reader sha c r (forget s) ≡ map_ok (λ a. a.0) (collect_reader sha c r s)
  unfolding cut_reader collect_reader
  cut_reader-forget (eof bs) s =
      ap (λ t. ok (cut_rest sha c t)) (cut_bytes-forget bs s)
      ∙ ap (λ l. ok l) (cut_rest-forget (collect_bytes sha c bs s))
  cut_reader-forget (fails bs e) s = refl
  cut_reader-forget (more bs r) s =
      ap (cut_reader sha c r) (cut_bytes-forget bs s)
      ∙ cut_reader-forget r (collect_bytes sha c bs s)

-- On every reader `Chunk` returns the error or the descriptions that `ChunkWithData` returns.
pub chunk-eq-chunk_with_data :
    (sha : List ℕ → String) (c : Chunker) (r : Reader)
    → chunk sha c r ≡ map_ok (λ a. a.0) (chunk_with_data sha c r)
unfolding chunk chunk_with_data
chunk-eq-chunk_with_data sha c r = cut_reader-forget sha c r (start_collecting c)
