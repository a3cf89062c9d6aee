-- ===== src/Download/Stream.antt =====
-- The loops that write the content of a file: `streamContent`, `streamRange` and
-- `streamDecryptedRange`. The storage and the cipher are parameters, and so is the writer: its
-- error for a slice, given all bytes written before. Offsets are not negative and far below 2^63,
-- since they count bytes of chunks in memory.
pub mod Between
pub mod Slice
use vault_drift.Common.{
  ℕ, ◌+◌, ◌-◌, ◌||◌, String, Bool, Option, none, some, List, [], ◌∷◌, ◌++◌, length, take, drop, leb,
  ltb, if◌then◌else◌,
}
use vault_drift.Chunk.Chunker.{Result, ok, err}

-- A chunk's bytes by its hash, or an error.
abbrev pub Fetch : Type 0
Fetch = String → Result (List ℕ)

abbrev pub Writer : Type 0
Writer = List ℕ → List ℕ → Option String

-- The slice of a chunk that lies in the range, where the chunk begins at `offset`.
unfoldable pub slice_of : ℕ → ℕ → ℕ → List ℕ → List ℕ
slice_of start end offset bytes =
    let slice_start = if ltb offset start then start - offset else 0 in
    let slice_end =
      if ltb (end + 1) (offset + length bytes) then end - offset + 1 else length bytes in
    take (slice_end - slice_start) (drop slice_start bytes)

-- A chunk that the loop has fetched: `continue` with no output, or the slice to write.
unfoldable pub is_outside : ℕ → ℕ → ℕ → List ℕ → Bool
is_outside start end offset bytes = leb (offset + length bytes) start || leb (end + 1) offset

module _ (fetch : Fetch) (write : Writer) where
  -- `streamContent`: the error, none for nil, and the bytes written.
  unfoldable pub stream_content : List String → List ℕ → Option String × List ℕ
  stream_content [] written = (none, written)
  stream_content (hash ∷ hashes) written = elim (fetch hash) [
    | err e ↦ (some e, written)
    | ok bytes ↦ elim (write written bytes) [
      | some e ↦ (some e, written)
      | none ↦ stream_content hashes (written ++ bytes)
    ]
  ]

  -- The loop of `streamRange` from `offset` on, with the bytes written so far and their count.
  unfoldable pub range_loop : ℕ → ℕ → List String → ℕ → ℕ → List ℕ → Option String × List ℕ
  unfolding slice_of is_outside
  range_loop start end [] offset count written = (none, written)
  range_loop start end (hash ∷ hashes) offset count written = elim (fetch hash) [
    | err e ↦ (some e, written)
    | ok bytes ↦
        let slice = slice_of start end offset bytes in
        let skipped = range_loop start end hashes (offset + length bytes) count written in
        let rest =
          range_loop start end hashes (offset + length bytes) (count + length slice)
            (written ++ slice) in
        if is_outside start end offset bytes then skipped else elim (write written slice) [
          | some e ↦ (some e, written)
          | none ↦
              if leb (end - start + 1) (count + length slice)
              then (none, written ++ slice)
              else rest
        ]
  ]

  -- `streamRange`
  unfoldable pub stream_range : ℕ → ℕ → List String → Option String × List ℕ
  unfolding range_loop
  stream_range start end hashes = range_loop start end hashes 0 0 []

-- What `streamDecryptedRange` fetches: the chunk, decrypted under the file's key.
unfoldable pub decrypted : (List ℕ → List ℕ → Result (List ℕ)) → List ℕ → Fetch → Fetch
decrypted decrypt file_key get hash = elim (get hash) [
  | err e ↦ err e
  | ok bytes ↦ decrypt bytes file_key
]

-- `streamDecryptedRange`, whose key `unwrapFileKey` answers.
unfoldable pub stream_decrypted_range :
    (List ℕ → List ℕ → Result (List ℕ))
    → Fetch
    → Writer
    → Result (List ℕ)
    → ℕ
    → ℕ
    → List String
    → Option String × List ℕ
unfolding stream_range decrypted
stream_decrypted_range decrypt get write (err e) start end hashes = (some e, [])
stream_decrypted_range decrypt get write (ok file_key) start end hashes =
    stream_range (decrypted decrypt file_key get) write start end hashes
