-- ===== src/Chunk/Chunker/Stream.antt =====
-- `ChunkStream` of internal/chunk/chunker.go, which hands each chunk to a callback.
use vault_drift.Common.{
  ℕ, ◌+◌, ◌≡◌, refl, ◌∙◌, ap, String, Option, none, some, List, [], ◌∷◌, ◌++◌, map, length,
  Bool-cases, inl, inr, ltb, if◌then◌else◌,
}
use mathlib.Core.List.{map-append}
use vault_drift.Chunk.Rabin.{Chunker, Window, new_window, roll, at_boundary}
use vault_drift.Chunk.Chunker.{
  Reader, eof, fails, more, ok, ChunkInfo, Collecting, collect_byte, collect_bytes, collect_rest,
  collect_reader, chunk_with_data, start_collecting,
}

-- The arguments of one call of `onChunk`.
pub record Call : Type 0 where
  pub offset : ℕ
  pub size : ℕ
  pub hash : String
  pub content : List ℕ

-- The variables of `ChunkStream`, what was written to `hasher` since its last `Reset`, and the
-- calls made so far.
pub record Streaming : Type 0 where
  pub chunk_buf : List ℕ
  pub hashed : List ℕ
  pub chunk_offset : ℕ
  pub window : Window
  pub calls : List Call

-- The error of `onChunk`, given the calls before this one.
abbrev pub Callback : Type 0
Callback = List Call → Call → Option String

abbrev start_streaming : Chunker → Streaming
start_streaming c = record {
  chunk_buf = [];
  hashed = [];
  chunk_offset = 0;
  window = new_window c;
  calls = [];
}

-- An error ends the loops, with what `stop` keeps of the state; nil goes on.
abbrev pub and_then {ℓ} :
    {A : Type ℓ}
    → Option String × Streaming
    → (Streaming → A)
    → (Streaming → Option String × A)
    → Option String × A
and_then (some e, t) stop go = (some e, stop t)
and_then (none, t) stop go = go t

module _ (sha : List ℕ → String) (c : Chunker) (on_chunk : Callback) where
  -- A call of `onChunk` for the bytes in `chunkBuf`.
  abbrev call_of : Streaming → Call
  call_of s = record {
    offset = s.chunk_offset;
    size = length s.chunk_buf;
    hash = sha s.hashed;
    content = s.chunk_buf;
  }

  abbrev called : Streaming → Streaming
  called s = record s { calls = s.calls ++ call_of s ∷ [] }

  -- One round of the inner loop: the error that ends it, and the state. The offset grows by the
  -- length of `chunkBuf` after `chunkBuf` has been emptied.
  unfoldable pub stream_byte : ℕ → Streaming → Option String × Streaming
  stream_byte b s =
      let t : Streaming = record s {
        chunk_buf = s.chunk_buf ++ b ∷ [];
        hashed = s.hashed ++ b ∷ [];
        window = roll c b s.window;
      } in
      if at_boundary c (length t.chunk_buf) t.window.fingerprint
      then elim (on_chunk t.calls (call_of t)) [
        | some e ↦ (some e, called t)
        | none ↦ (
          none,
          record (called t) {
            chunk_buf = [];
            hashed = [];
            chunk_offset = t.chunk_offset + length {A = ℕ} [];
          },
        )
      ]
      else (none, t)

  unfoldable pub stream_bytes : List ℕ → Streaming → Option String × Streaming
  unfolding stream_byte
  stream_bytes [] s = (none, s)
  stream_bytes (b ∷ bs) s = and_then (stream_byte b s) (λ t. t) (stream_bytes bs)

  unfoldable pub stream_rest : Streaming → Option String × List Call
  stream_rest s =
      if ltb 0 (length s.chunk_buf)
      then (on_chunk s.calls (call_of s), (called s).calls)
      else (none, s.calls)

  -- The outer loop. It returns the error, `none` for nil, and the calls that were made.
  unfoldable pub stream_reader : Reader → Streaming → Option String × List Call
  unfolding stream_bytes stream_rest
  stream_reader (eof bs) s = and_then (stream_bytes bs s) (λ t. t.calls) stream_rest
  stream_reader (fails bs x) s =
      and_then (stream_bytes bs s) (λ t. t.calls) (λ t. (some x, t.calls))
  stream_reader (more bs r) s = and_then (stream_bytes bs s) (λ t. t.calls) (stream_reader r)

  -- `ChunkStream`
  unfoldable pub chunk_stream : Reader → Option String × List Call
  unfolding stream_reader
  chunk_stream r = stream_reader r (start_streaming c)

-- The call for one piece of the input, at offset 0.
abbrev pub call_at_zero : (List ℕ → String) → List ℕ → Call
call_at_zero sha d = record { offset = 0; size = length d; hash = sha d; content = d }

-- The state of `ChunkStream` that a state of `ChunkWithData` stands for.
abbrev streamed : (List ℕ → String) → Collecting → Streaming
streamed sha s = record {
  chunk_buf = s.chunk_buf;
  hashed = s.chunk_buf;
  chunk_offset = 0;
  window = s.window;
  calls = map (call_at_zero sha) s.chunk_data;
}

module _ (sha : List ℕ → String) (c : Chunker) (on_chunk : Callback)
    (accepts : (calls : List Call) (k : Call) → on_chunk calls k ≡ none) where
  stream_byte-streamed :
      (b : ℕ) (s : Collecting)
      → stream_byte sha c on_chunk b (streamed sha s)
        ≡ (none, streamed sha (collect_byte sha c b s))
  unfolding stream_byte collect_byte
  stream_byte-streamed b s =
      elim (Bool-cases
        (at_boundary c (length (s.chunk_buf ++ b ∷ [])) (roll c b s.window).fingerprint)) [
          | inl cut ↦ rw cut (rw (accepts _ _) (simp map-append))
          | inr keep ↦ rw keep
        ]

  stream_bytes-streamed :
      (bs : List ℕ) (s : Collecting)
      → stream_bytes sha c on_chunk bs (streamed sha s)
        ≡ (none, streamed sha (collect_bytes sha c bs s))
  unfolding stream_bytes collect_bytes
  stream_bytes-streamed [] s = refl
  stream_bytes-streamed (b ∷ bs) s =
      ap (λ p. and_then p (λ t. t) (stream_bytes sha c on_chunk bs)) (stream_byte-streamed b s)
      ∙ stream_bytes-streamed bs (collect_byte sha c b s)

  stream_rest-streamed :
      (s : Collecting)
      → stream_rest sha c on_chunk (streamed sha s)
        ≡ (none, map (call_at_zero sha) (collect_rest sha c s).1)
  unfolding stream_rest collect_rest
  stream_rest-streamed s = elim (Bool-cases (ltb 0 (length s.chunk_buf))) [
    | inl left ↦ rw left (rw (accepts _ _) (simp map-append))
    | inr nothing ↦ rw nothing
  ]

  stream_reader-streamed :
      (r : Reader) (s : Collecting) (a : List ChunkInfo × List (List ℕ))
      → collect_reader sha c r s ≡ ok a
      → stream_reader sha c on_chunk r (streamed sha s) ≡ (none, map (call_at_zero sha) a.1)
  unfolding stream_reader collect_reader
  stream_reader-streamed (eof bs) s a h =
      ap (λ p. and_then p (λ t. t.calls) (stream_rest sha c on_chunk)) (stream_bytes-streamed bs s)
      ∙ stream_rest-streamed (collect_bytes sha c bs s)
      ∙ ap (λ (x : List ChunkInfo × List (List ℕ)). (none, map (call_at_zero sha) x.1)) (same h)
    where
      same : {x : List ChunkInfo × List (List ℕ)} → ok x ≡ ok a → x ≡ a
      same h = cc
  stream_reader-streamed (fails bs e) s a h = absurd (cc)
  stream_reader-streamed (more bs r) s a h =
      ap (λ p. and_then p (λ t. t.calls) (stream_reader sha c on_chunk r))
        (stream_bytes-streamed bs s)
      ∙ stream_reader-streamed r (collect_bytes sha c bs s) a h

-- With a callback that never fails, where `ChunkWithData` returns, `ChunkStream` returns nil and
-- has called back once for each of its pieces, in order, with the piece, its length and its hash;
-- but the offset is 0 in every call.
pub chunk_stream-offsets_zero :
    (sha : List ℕ → String) (c : Chunker) (on_chunk : Callback)
    → ((calls : List Call) (k : Call) → on_chunk calls k ≡ none)
    → (r : Reader) (infos : List ChunkInfo) (pieces : List (List ℕ))
    → chunk_with_data sha c r ≡ ok (infos, pieces)
    → chunk_stream sha c on_chunk r ≡ (none, map (call_at_zero sha) pieces)
unfolding chunk_stream chunk_with_data
chunk_stream-offsets_zero sha c on_chunk accepts r infos pieces h =
    stream_reader-streamed sha c on_chunk accepts r (start_collecting c) (infos, pieces) h
