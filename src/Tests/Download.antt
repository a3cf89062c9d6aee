-- ===== src/Tests/Download.antt =====
-- Runs of downloads.
use vault_drift.Common.{
  ℕ, ◌≤◌, ◌<◌, ◌≡◌, refl, String, none, false, List, [], ◌∷◌, ◌++◌, arith, concat, drop, length,
  str_eq, take, if◌then◌else◌,
}
use vault_drift.Chunk.Chunker.{Result, ok, err}
use vault_drift.Download.Stream.{Fetch, Writer, stream_range}
use vault_drift.Download.Stream.Slice.{stream_range-writes}
use vault_drift.Download.Range.{
  File, bytes_prefix, dash, handle_range_request, partial, range_bounds, parse_int,
}
use vault_drift.Download.Range.Bounds.{
  Asks, asks_between, between_bytes, handle_range_request-sends, meaning, range_bounds-Asks,
}

abbrev store : Fetch
store hash =
    if str_eq hash "a"
    then ok (10 ∷ 11 ∷ 12 ∷ [])
    else if str_eq hash "b"
    then ok (13 ∷ 14 ∷ [])
    else err "not found"

abbrev hashes : List String
hashes = "a" ∷ "b" ∷ "a" ∷ []

abbrev pieces : List (List ℕ)
pieces = (10 ∷ 11 ∷ 12 ∷ []) ∷ (13 ∷ 14 ∷ []) ∷ (10 ∷ 11 ∷ 12 ∷ []) ∷ []

abbrev sink : Writer
sink written slice = none

middle : stream_range store sink 2 5 hashes ≡ (none, 12 ∷ 13 ∷ 14 ∷ 10 ∷ [])
unfolding stream_range
middle = refl

stream_range-writes_example :
    stream_range store sink 2 5 hashes ≡ (none, take 4 (drop 2 (concat pieces)))
stream_range-writes_example =
    stream_range-writes store sink 2 5 (λ written slice. refl) hashes pieces
      (refl, (refl, (refl, tt))) (omega arith)

-- "bytes=2-50"
abbrev header : List ℕ
header = bytes_prefix ++ (50 ∷ []) ++ dash ∷ 53 ∷ 48 ∷ []

header-Asks : Asks (between_bytes 2 50) header
unfolding parse_int
header-Asks = asks_between 2 50 50 53 [] (48 ∷ []) (refl, tt) (refl, (refl, tt)) refl refl

range_bounds-Asks_example : range_bounds 8 header ≡ meaning 8 (between_bytes 2 50)
range_bounds-Asks_example = range_bounds-Asks 8 (between_bytes 2 50) header header-Asks

abbrev file : File
file = record { size_bytes = 8; is_encrypted = false; encrypted_key = [] }

abbrev no_key : List ℕ → List ℕ → Result (List ℕ)
no_key key bytes = err "no key"

handle_range_request-sends_example :
    (handle_range_request no_key no_key store sink none file hashes header
      ≡ partial 6 2 7 8 (none, take 6 (drop 2 (concat pieces))))
    × (length (take 6 (drop 2 (concat pieces))) ≡ 6)
    × (2 ≤ 7)
    × (7 < 8)
handle_range_request-sends_example =
    handle_range_request-sends no_key no_key store sink none file hashes header pieces 2 7
      (λ written slice. refl) (refl, (refl, (refl, tt))) refl refl
      (range_bounds-Asks 8 (between_bytes 2 50) header header-Asks)
