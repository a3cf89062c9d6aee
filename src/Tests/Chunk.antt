-- ===== src/Tests/Chunk.antt =====
-- Runs of the chunker on small inputs, with a stand-in for the digest.
use vault_drift.Common.{ℕ, ◌*◌, ◌≡◌, refl, String, none, List, [], ◌∷◌, map, arith, concat}
use vault_drift.Chunk.Rabin.{Chunker, mask_bits, new_window, roll, at_boundary}
use vault_drift.Chunk.Chunker.{Reader, eof, more, fails, ok, ChunkInfo, chunk, chunk_with_data}
use vault_drift.Chunk.Chunker.Contents.{describe, chunk_with_data-partitions}
use vault_drift.Chunk.Chunker.Bounds.{IsBounded, chunk_with_data-IsBounded}
use vault_drift.Chunk.Chunker.Agreement.{map_ok, chunk-eq-chunk_with_data}
use vault_drift.Chunk.Chunker.Stream.{
  Callback, chunk_stream, call_at_zero, chunk_stream-offsets_zero,
}

-- A chunker that cuts after two bytes, or three at most.
abbrev tiny : Chunker
tiny = record {
  min_size = 2;
  avg_size = 2;
  max_size = 3;
  window_size = 2;
  mask = 1;
  table = record { polynomial = 11; degree = 3; out_table = []; mod_table = [] };
}

abbrev sha : List ℕ → String
sha bytes = "digest"

abbrev info : ℕ → ℕ → ChunkInfo
info offset size = record { hash = "digest"; offset = offset; size = size }

abbrev portions : Reader
portions = more (1 ∷ 3 ∷ []) (more (5 ∷ 4 ∷ 2 ∷ []) (eof (6 ∷ [])))

abbrev input : List ℕ
input = 1 ∷ 3 ∷ 5 ∷ 4 ∷ 2 ∷ 6 ∷ []

abbrev infos : List ChunkInfo
infos = info 0 3 ∷ info 3 2 ∷ info 5 1 ∷ []

abbrev pieces : List (List ℕ)
pieces = (1 ∷ 3 ∷ 5 ∷ []) ∷ (4 ∷ 2 ∷ []) ∷ (6 ∷ []) ∷ []

-- The first piece is cut at the maximum, the second at a boundary, and the third is the rest.
three_pieces : chunk_with_data sha tiny portions ≡ ok (infos, pieces)
unfolding chunk_with_data new_window roll at_boundary
three_pieces = refl

default_mask : mask_bits (1024 * 1024) ≡ 18
unfolding mask_bits
default_mask = refl

chunk_with_data-partitions_example :
    ((a : List ChunkInfo × List (List ℕ)) × (chunk_with_data sha tiny portions ≡ ok a)
      × (concat a.1 ≡ input)
      × (a.0 ≡ describe sha 0 a.1))
    × (chunk_with_data sha tiny portions ≡ chunk_with_data sha tiny (eof input))
chunk_with_data-partitions_example = chunk_with_data-partitions sha tiny portions input refl

abbrev broken : Reader
broken = more (1 ∷ 3 ∷ 5 ∷ 4 ∷ []) (fails (2 ∷ []) "timeout")

chunk_with_data-IsBounded_example : IsBounded tiny pieces
chunk_with_data-IsBounded_example =
    chunk_with_data-IsBounded sha tiny (omega arith) (omega arith) portions infos pieces
      three_pieces

chunk-eq-chunk_with_data_example :
    chunk sha tiny portions ≡ map_ok (λ a. a.0) (chunk_with_data sha tiny portions)
chunk-eq-chunk_with_data_example = chunk-eq-chunk_with_data sha tiny portions

abbrev accepting : Callback
accepting calls call = none

chunk_stream-offsets_zero_example :
    chunk_stream sha tiny accepting portions ≡ (none, map (call_at_zero sha) pieces)
chunk_stream-offsets_zero_example =
    chunk_stream-offsets_zero sha tiny accepting (λ calls call. refl) portions infos pieces
      three_pieces
