-- ===== src/Chunk/Chunker.antt =====
-- The loops of internal/chunk/chunker.go that cut a reader's bytes into chunks. SHA-256 with its
-- hexadecimal form is a parameter. Sizes and offsets are unbounded here; in Go they are int64.
pub mod Bounds
pub mod Contents
pub mod Agreement
pub mod Stream
use vault_drift.Common.{ℕ, ◌+◌, String, List, [], ◌∷◌, ◌++◌, length, ltb, if◌then◌else◌}
use vault_drift.Chunk.Rabin.{Chunker, Window, new_window, roll, at_boundary}

-- What the calls of `r.Read` give: bytes, and `io.EOF` or another error with the last of them.
pub data Reader : Type 0 where
  eof : List ℕ → Reader
  fails : List ℕ → String → Reader
  more : List ℕ → Reader → Reader

pub data Result {ℓ} (A : Type ℓ) : Type ℓ where
  ok : A → Result A
  err : String → Result A

-- `ChunkInfo`
pub record ChunkInfo : Type 0 where
  pub hash : String
  pub offset : ℕ
  pub size : ℕ

-- The variables of `Chunk`.
pub record Cutting : Type 0 where
  pub chunk_buf : List ℕ
  pub chunk_offset : ℕ
  pub offset : ℕ
  pub window : Window
  pub chunks : List ChunkInfo

-- The variables of `ChunkWithData`.
pub record Collecting : Type 0 where
  pub chunk_buf : List ℕ
  pub chunk_offset : ℕ
  pub offset : ℕ
  pub window : Window
  pub chunks : List ChunkInfo
  pub chunk_data : List (List ℕ)

abbrev pub start_cutting : Chunker → Cutting
start_cutting c = record {
  chunk_buf = [];
  chunk_offset = 0;
  offset = 0;
  window = new_window c;
  chunks = [];
}

abbrev pub start_collecting : Chunker → Collecting
start_collecting c = record {
  chunk_buf = [];
  chunk_offset = 0;
  offset = 0;
  window = new_window c;
  chunks = [];
  chunk_data = [];
}

module _ (sha : List ℕ → String) (c : Chunker) where
  -- One round of the inner loop of `Chunk`.
  unfoldable pub cut_byte : ℕ → Cutting → Cutting
  cut_byte b s =
      let buf = s.chunk_buf ++ b ∷ [] in
      let window = roll c b s.window in
      if at_boundary c (length buf) window.fingerprint
      then record {
        chunk_buf = [];
        chunk_offset = s.offset + 1;
        offset = s.offset + 1;
        window = window;
        chunks =
            s.chunks ++ record { hash = sha buf; offset = s.chunk_offset; size = length buf } ∷ [];
      }
      else record s { chunk_buf = buf; offset = s.offset + 1; window = window }

  unfoldable pub cut_bytes : List ℕ → Cutting → Cutting
  unfolding cut_byte
  cut_bytes [] s = s
  cut_bytes (b ∷ bs) s = cut_bytes bs (cut_byte b s)

  -- What `Chunk` does after the loop with the bytes that are left.
  unfoldable pub cut_rest : Cutting → List ChunkInfo
  cut_rest s =
      if ltb 0 (length s.chunk_buf)
      then s.chunks
        ++ record { hash = sha s.chunk_buf; offset = s.chunk_offset; size = length s.chunk_buf }
          ∷ []
      else s.chunks

  unfoldable pub cut_reader : Reader → Cutting → Result (List ChunkInfo)
  unfolding cut_bytes cut_rest
  cut_reader (eof bs) s = ok (cut_rest (cut_bytes bs s))
  cut_reader (fails bs e) s = err e
  cut_reader (more bs r) s = cut_reader r (cut_bytes bs s)

  -- `Chunk`
  unfoldable pub chunk : Reader → Result (List ChunkInfo)
  unfolding cut_reader
  chunk r = cut_reader r (start_cutting c)

  -- One round of the inner loop of `ChunkWithData`.
  unfoldable pub collect_byte : ℕ → Collecting → Collecting
  collect_byte b s =
      let buf = s.chunk_buf ++ b ∷ [] in
      let window = roll c b s.window in
      if at_boundary c (length buf) window.fingerprint
      then record {
        chunk_buf = [];
        chunk_offset = s.offset + 1;
        offset = s.offset + 1;
        window = window;
        chunks =
            s.chunks ++ record { hash = sha buf; offset = s.chunk_offset; size = length buf } ∷ [];
        chunk_data = s.chunk_data ++ buf ∷ [];
      }
      else record s { chunk_buf = buf; offset = s.offset + 1; window = window }

  unfoldable pub collect_bytes : List ℕ → Collecting → Collecting
  unfolding collect_byte
  collect_bytes [] s = s
  collect_bytes (b ∷ bs) s = collect_bytes bs (collect_byte b s)

  -- What `ChunkWithData` does after the loop.
  unfoldable pub collect_rest : Collecting → List ChunkInfo × List (List ℕ)
  collect_rest s =
      if ltb 0 (length s.chunk_buf)
      then (
        s.chunks
            ++ record { hash = sha s.chunk_buf; offset = s.chunk_offset; size = length s.chunk_buf }
              ∷ [],
        s.chunk_data ++ s.chunk_buf ∷ [],
      )
      else (s.chunks, s.chunk_data)

  unfoldable pub collect_reader : Reader → Collecting → Result (List ChunkInfo × List (List ℕ))
  unfolding collect_bytes collect_rest
  collect_reader (eof bs) s = ok (collect_rest (collect_bytes bs s))
  collect_reader (fails bs e) s = err e
  collect_reader (more bs r) s = collect_reader r (collect_bytes bs s)

  -- `ChunkWithData`
  unfoldable pub chunk_with_data : Reader → Result (List ChunkInfo × List (List ℕ))
  unfolding collect_reader
  chunk_with_data r = collect_reader r (start_collecting c)
