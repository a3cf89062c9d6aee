-- ===== src/Download/Stream/Slice.antt =====
-- `streamRange` writes the bytes of the range, and `streamContent` all of them.
use mathlib.Core.Path.{ap₂}
use mathlib.Core.List.{append_assoc, append-nil}
use vault_drift.Common.{
  ℕ, ◌+◌, ◌-◌, ◌≤◌, ◌<◌, ◌≡◌, sym, ap, ◌∙◌, true, false, String, none, List, [], ◌∷◌, ◌++◌, length,
  take, drop, leb, arith, concat, Bool-cases, inl, inr, take-all,
}
use vault_drift.Chunk.Chunker.{ok}
use vault_drift.Download.Stream.{
  Fetch, Writer, slice_of, is_outside, stream_content, range_loop, stream_range,
}
use vault_drift.Download.Stream.Between.{
  between, between-outside, between-last, between-inside, length-slice_of, outside-before,
  meets-past, take-drop_nil,
}

-- The storage has the chunks `pieces` under `hashes`.
abbrev pub Stored : Fetch → List String → List (List ℕ) → Type 0
Stored fetch [] [] = Unit
Stored fetch [] (piece ∷ pieces) = ⊥
Stored fetch (hash ∷ hashes) [] = ⊥
Stored fetch (hash ∷ hashes) (piece ∷ pieces) = (fetch hash ≡ ok piece) × Stored fetch hashes pieces

module _ (fetch : Fetch) (write : Writer)
    (accepts : (written slice : List ℕ) → write written slice ≡ none) where
  range_loop-writes :
      {start end : ℕ} (ordered : start ≤ end) (hashes : List String) (pieces : List (List ℕ))
      (offset : ℕ) (written : List ℕ)
      → Stored fetch hashes pieces
      → offset ≤ end
      → range_loop fetch write start end hashes offset (offset - start) written
        ≡ (none, written ++ between start end offset (concat pieces))
  unfolding range_loop
  range_loop-writes ordered [] [] offset written stored room =
      ap (λ xs. (none, xs))
        (sym (append-nil written) ∙ ap (λ xs. written ++ xs) (sym (take-drop_nil _ _)))
  range_loop-writes ordered [] (piece ∷ pieces) offset written stored room = absurd stored
  range_loop-writes ordered (hash ∷ hashes) [] offset written stored room = absurd stored
  range_loop-writes {start} {end} ordered (hash ∷ hashes) (piece ∷ pieces) offset written stored
        room =
      elim (Bool-cases (is_outside start end offset piece)) [
        | inl out ↦
            rw (stored.0, range_loop, out)
              (let before = outside-before ordered offset piece room out in
                ap
                  (λ count.
                    range_loop fetch write start end hashes (offset + length piece) count written)
                  (omega arith)
                ∙ range_loop-writes ordered hashes pieces (offset + length piece) written stored.1
                    (omega arith)
                ∙ ap (λ xs. (none, written ++ xs))
                    (sym (between-outside ordered offset piece (concat pieces) room out)))
        | inr meets ↦ elim (Bool-cases (leb (end + 1) (offset + length piece))) [
          | inl last ↦
              rw
                (
                  stored.0,
                  range_loop,
                  meets,
                  accepts written (slice_of start end offset piece),
                  full meets last,
                )
                (ap (λ xs. (none, written ++ xs))
                  (sym
                    (between-last ordered offset piece (concat pieces) room meets (ground arith))))
          | inr more ↦
              rw
                (
                  stored.0,
                  range_loop,
                  meets,
                  accepts written (slice_of start end offset piece),
                  short meets more,
                )
                (ap
                    (λ count.
                      range_loop fetch write start end hashes (offset + length piece) count
                        (written ++ slice_of start end offset piece))
                    (count meets more)
                  ∙ range_loop-writes ordered hashes pieces (offset + length piece)
                      (written ++ slice_of start end offset piece) stored.1 (ground arith)
                  ∙ ap (λ xs. (none, xs))
                      (append_assoc written (slice_of start end offset piece)
                          (between start end (offset + length piece) (concat pieces))
                        ∙ ap (λ xs. written ++ xs)
                            (sym (
                              between-inside ordered offset piece (concat pieces) meets
                                (ground arith)))))
        ]
      ]
    where
      full :
          is_outside start end offset piece ≡ false
          → leb (end + 1) (offset + length piece) ≡ true
          → leb (end - start + 1) ((offset - start) + length (slice_of start end offset piece))
            ≡ true
      full meets last = ground (arith, length-slice_of ordered offset piece room meets)

      short :
          is_outside start end offset piece ≡ false
          → leb (end + 1) (offset + length piece) ≡ false
          → leb (end - start + 1) ((offset - start) + length (slice_of start end offset piece))
            ≡ false
      short meets more = ground (
        arith,
        length-slice_of ordered offset piece room meets,
        meets-past ordered offset piece meets,
      )

      count :
          is_outside start end offset piece ≡ false
          → leb (end + 1) (offset + length piece) ≡ false
          → (offset - start) + length (slice_of start end offset piece)
            ≡ (offset + length piece) - start
      count meets more = ground (arith, length-slice_of ordered offset piece room meets)

-- Where the storage has the chunks and the writer takes every slice, `streamRange` returns nil and
-- has written exactly the bytes from `start` to `end`, both included, of the chunks' concatenation,
-- or as many of them as there are.
pub stream_range-writes :
    (fetch : Fetch) (write : Writer) (start end : ℕ)
    → ((written slice : List ℕ) → write written slice ≡ none)
    → (hashes : List String) (pieces : List (List ℕ)) → Stored fetch hashes pieces
    → start ≤ end
    → stream_range fetch write start end hashes
      ≡ (none, take (end + 1 - start) (drop start (concat pieces)))
unfolding stream_range
stream_range-writes fetch write start end accepts hashes pieces stored ordered =
    ap (λ count. range_loop fetch write start end hashes 0 count []) before
    ∙ range_loop-writes fetch write accepts ordered hashes pieces 0 [] stored (omega arith)
    ∙ ap₂ (λ m j. (none, take m (drop j (concat pieces)))) wide from
  where
    before : 0 ≡ 0 - start
    before = omega arith

    wide : end + 1 - (0 + (start - 0)) ≡ end + 1 - start
    wide = omega arith

    from : start - 0 ≡ start
    from = omega arith

pub stream_content-writes_from :
    (fetch : Fetch) (write : Writer)
    → ((written slice : List ℕ) → write written slice ≡ none)
    → (hashes : List String) (pieces : List (List ℕ)) (written : List ℕ)
    → Stored fetch hashes pieces
    → stream_content fetch write hashes written ≡ (none, written ++ concat pieces)
unfolding stream_content
stream_content-writes_from fetch write accepts [] [] written stored =
    ap (λ xs. (none, xs)) (sym (append-nil written))
stream_content-writes_from fetch write accepts [] (piece ∷ pieces) written stored = absurd stored
stream_content-writes_from fetch write accepts (hash ∷ hashes) [] written stored = absurd stored
stream_content-writes_from fetch write accepts (hash ∷ hashes) (piece ∷ pieces) written stored =
    rw (stored.0, stream_content, accepts written piece)
      (stream_content-writes_from fetch write accepts hashes pieces (written ++ piece) stored.1
        ∙ ap (λ xs. (none, xs)) (append_assoc written piece (concat pieces)))

-- Where the storage has the chunks and the writer takes every slice, a whole download and a
-- range request for all bytes, of a file with any, write the same: the chunks' concatenation.
pub stream_content-writes :
    (fetch : Fetch) (write : Writer)
    → ((written slice : List ℕ) → write written slice ≡ none)
    → (hashes : List String) (pieces : List (List ℕ)) → Stored fetch hashes pieces
    → 0 < length (concat pieces)
    → (stream_content fetch write hashes [] ≡ (none, concat pieces))
      × (stream_range fetch write 0 (length (concat pieces) - 1) hashes
          ≡ stream_content fetch write hashes [])
stream_content-writes fetch write accepts hashes pieces stored some_bytes =
    let whole = stream_content-writes_from fetch write accepts hashes pieces [] stored in
    let size : ℕ = length (concat pieces) in
    (
      whole,
      stream_range-writes fetch write 0 (size - 1) accepts hashes pieces stored (omega arith)
          ∙ ap (λ xs. (none, xs)) (take-all (size - 1 + 1 - 0) (concat pieces) (omega arith))
          ∙ sym whole,
    )
