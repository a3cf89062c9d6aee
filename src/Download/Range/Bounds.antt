-- ===== src/Download/Range/Bounds.antt =====
-- What a Range header means, and what is sent for it.
use vault_drift.Common.{
  ℕ, ◌+◌, ◌-◌, min, ◌≤◌, ◌<◌, ◌≡◌, refl, ap, ◌∙◌, ◌&&◌, ◌||◌, String, false, Option, none, some,
  List, [], ◌∷◌, ◌++◌, All, length, take, drop, leb, ltb, ◌==◌, arith, concat, Bool-cases, inl, inr,
  length-take, length-drop, if◌then◌else◌,
}
use vault_drift.Chunk.Chunker.{Result, ok, err}
use vault_drift.Download.Stream.{Fetch, Writer}
use vault_drift.Download.Stream.Slice.{Stored, stream_range-writes}
use vault_drift.Download.Range.{
  parse_int, split, trim_prefix, bytes_prefix, comma, dash, suffix_range, closed_range, start_range,
  parse_parts, check_range, single_range, after_prefix, range_bounds, File, partial, send_range,
  handle_range_request,
}

check_range-bounds :
    (size : ℕ) (r : Result (ℕ × ℕ)) (start end : ℕ)
    → check_range size r ≡ ok (start, end)
    → (start ≤ end) × (end < size)
unfolding check_range
check_range-bounds size (err m) start end h = absurd (cc)
check_range-bounds size (ok (s, e)) start end h = elim (Bool-cases (leb size s || ltb e s)) [
  | inl bad ↦
      let r : ◌≡◌ {A = Result (ℕ × ℕ)} (err "Range not satisfiable") (ok (start, end)) =
        ground (arith, h, bad) in
      absurd (cc)
  | inr good ↦
      let r : ◌≡◌ {A = Result (ℕ × ℕ)} (ok (s, if leb size e then size - 1 else e))
          (ok (start, end)) =
        ground (arith, h, good) in
      let p : s ≡ start = cc in
      let q : (if leb size e then size - 1 else e) ≡ end = cc in ground (arith, good, p, q)
]

-- What a client asks for: the last bytes, all from a byte on, or those between two.
pub data Asked : Type 0 where
  last_bytes : ℕ → Asked
  from_byte : ℕ → Asked
  between_bytes : ℕ → ℕ → Asked

-- The first and the last byte to send, of a file of `size` bytes.
abbrev pub meaning : ℕ → Asked → Result (ℕ × ℕ)
meaning size (last_bytes n) =
    if ltb 0 n && ltb 0 size then ok (size - n, size - 1) else err "Range not satisfiable"
meaning size (from_byte i) = if ltb i size then ok (i, size - 1) else err "Range not satisfiable"
meaning size (between_bytes i j) =
    if ltb i size && leb i j then ok (i, min j (size - 1)) else err "Range not satisfiable"

-- A text without a comma or a dash.
abbrev pub Plain : List ℕ → Type 0
Plain = All (λ c. (c == comma || c == dash) ≡ false)

-- How a header asks.
pub data Asks : Asked → List ℕ → Type 0 where
  asks_last :
      (n : ℕ) (last : List ℕ)
      → Plain last
      → parse_int last ≡ some n
      → Asks (last_bytes n) (bytes_prefix ++ dash ∷ last)
  asks_from :
      (i c : ℕ) (cs : List ℕ)
      → Plain (c ∷ cs)
      → parse_int (c ∷ cs) ≡ some i
      → Asks (from_byte i) (bytes_prefix ++ (c ∷ cs) ++ dash ∷ [])
  asks_between :
      (i j c d : ℕ) (cs ds : List ℕ)
      → Plain (c ∷ cs)
      → Plain (d ∷ ds)
      → parse_int (c ∷ cs) ≡ some i
      → parse_int (d ∷ ds) ≡ some j
      → Asks (between_bytes i j) (bytes_prefix ++ (c ∷ cs) ++ dash ∷ d ∷ ds)

split-comma-Plain : (xs : List ℕ) → Plain xs → split comma xs ≡ xs ∷ []
unfolding split
split-comma-Plain [] h = refl
split-comma-Plain (x ∷ xs) h = rw (split-comma-Plain xs h.1) (ground (arith, h.0))

split-comma :
    (xs ys : List ℕ) → Plain xs → Plain ys → split comma (xs ++ dash ∷ ys) ≡ (xs ++ dash ∷ ys) ∷ []
unfolding split
split-comma [] ys hx hy = rw (split-comma-Plain ys hy)
split-comma (x ∷ xs) ys hx hy = rw (split-comma xs ys hx.1 hy) (ground (arith, hx.0))

split-Plain : (xs : List ℕ) → Plain xs → split dash xs ≡ xs ∷ []
unfolding split
split-Plain [] h = refl
split-Plain (x ∷ xs) h = rw (split-Plain xs h.1) (ground (arith, h.0))

split-dash : (xs ys : List ℕ) → Plain xs → Plain ys → split dash (xs ++ dash ∷ ys) ≡ xs ∷ ys ∷ []
unfolding split
split-dash [] ys hx hy = rw (split-Plain ys hy)
split-dash (x ∷ xs) ys hx hy = rw (split-dash xs ys hx.1 hy) (ground (arith, hx.0))

-- The header's parts, on the way from `range_bounds` to `parse_parts`.
range_bounds-parts :
    (size : ℕ) (xs ys : List ℕ)
    → Plain xs
    → Plain ys
    → range_bounds size (bytes_prefix ++ xs ++ dash ∷ ys)
      ≡ check_range size (parse_parts size (xs ∷ ys ∷ []))
unfolding range_bounds single_range trim_prefix
range_bounds-parts size xs ys hx hy =
    ap (single_range size) (split-comma xs ys hx hy)
    ∙ ap (λ parts. check_range size (parse_parts size parts)) (split-dash xs ys hx hy)

check_range-last :
    (size n : ℕ) → check_range size (ok (size - n, size - 1)) ≡ meaning size (last_bytes n)
unfolding check_range
check_range-last size n = ground arith

check_range-from : (size i : ℕ) → check_range size (ok (i, size - 1)) ≡ meaning size (from_byte i)
unfolding check_range
check_range-from size i = ground arith

check_range-between :
    (size i j : ℕ) → check_range size (ok (i, j)) ≡ meaning size (between_bytes i j)
unfolding check_range
check_range-between size i j = ground arith

-- A header with one range, in any of its three forms, whose numbers fit an int64, is answered as
-- the form says: the bytes asked for as far as the file has them, and an error where the file is
-- empty, the first byte is past its end, the last is before the first, or no bytes are asked for.
pub range_bounds-Asks :
    (size : ℕ) (asked : Asked) (header : List ℕ)
    → Asks asked header
    → range_bounds size header ≡ meaning size asked
unfolding parse_parts
range_bounds-Asks size _ _ (asks_last n last plain number) =
    range_bounds-parts size [] last tt plain
    ∙ ap (λ o. check_range size (suffix_range size o)) number
    ∙ check_range-last size n
range_bounds-Asks size _ _ (asks_from i c cs plain number) =
    range_bounds-parts size (c ∷ cs) [] plain tt
    ∙ ap (λ o. check_range size (start_range size o [])) number
    ∙ check_range-from size i
range_bounds-Asks size _ _ (asks_between i j c d cs ds plain plain_end number number_end) =
    range_bounds-parts size (c ∷ cs) (d ∷ ds) plain plain_end
    ∙ ap (λ o. check_range size (start_range size o (d ∷ ds))) number
    ∙ ap (λ o. check_range size (closed_range i o)) number_end
    ∙ check_range-between size i j

single_range-bounds :
    (size : ℕ) (parts : List (List ℕ)) (start end : ℕ)
    → single_range size parts ≡ ok (start, end)
    → (start ≤ end) × (end < size)
unfolding single_range
single_range-bounds size [] start end h = absurd (cc)
single_range-bounds size (part ∷ []) start end h =
    check_range-bounds size (parse_parts size (split dash part)) start end h
single_range-bounds size (part ∷ other ∷ parts) start end h = absurd (cc)

after_prefix-bounds :
    (size : ℕ) (spec : Option (List ℕ)) (start end : ℕ)
    → after_prefix size spec ≡ ok (start, end)
    → (start ≤ end) × (end < size)
after_prefix-bounds size none start end h = absurd (cc)
after_prefix-bounds size (some spec) start end h =
    single_range-bounds size (split comma spec) start end h

range_bounds-bounds :
    (size : ℕ) (header : List ℕ) (start end : ℕ)
    → range_bounds size header ≡ ok (start, end)
    → (start ≤ end) × (end < size)
unfolding range_bounds
range_bounds-bounds size header start end h =
    after_prefix-bounds size (trim_prefix bytes_prefix header) start end h

-- For an unencrypted file whose size is that of its stored chunks, with a writer that takes every
-- slice: a header whose bounds are found is answered with 206, and the stream then writes exactly
-- the bytes from `start` to `end`, as many as Content-Length says; the bounds lie in the file.
pub handle_range_request-sends :
    (decrypt unwrap : List ℕ → List ℕ → Result (List ℕ)) (get : Fetch) (write : Writer)
    (master_key : Option (List ℕ)) (file : File) (hashes : List String) (header : List ℕ)
    (pieces : List (List ℕ)) (start end : ℕ)
    → ((written slice : List ℕ) → write written slice ≡ none)
    → Stored get hashes pieces
    → file.size_bytes ≡ length (concat pieces)
    → file.is_encrypted ≡ false
    → range_bounds file.size_bytes header ≡ ok (start, end)
    → (handle_range_request decrypt unwrap get write master_key file hashes header
        ≡ partial
            (end - start + 1)
            start
            end
            file.size_bytes
            (none, take (end + 1 - start) (drop start (concat pieces))))
      × (length (take (end + 1 - start) (drop start (concat pieces))) ≡ end - start + 1)
      × (start ≤ end)
      × (end < file.size_bytes)
unfolding handle_range_request
handle_range_request-sends decrypt unwrap get write master_key file hashes header pieces start end
      accepts stored size plain found =
    let (ordered, inside) = range_bounds-bounds file.size_bytes header start end found in
    let content = concat pieces in
    (
      rw
          (
            found,
            send_range,
            plain,
            stream_range-writes get write start end accepts hashes pieces stored ordered,
          )
          refl,
      length-take (end + 1 - start) (drop start content)
            (omega (arith, length-drop start content, size))
          ∙ omega arith,
      ordered,
      inside,
    )
