-- ===== src/Chunk/Chunker/Contents.antt =====
-- `ChunkWithData` loses nothing and describes each chunk truly.
use vault_drift.Common.{
  ℕ, ◌+◌, ◌≡◌, refl, ◌∙◌, ap, sym, String, Bool, true, false, List, [], ◌∷◌, ◌++◌, arith, length,
  length-append, concat, concat-append, Bool-cases, ◌⊎◌, inl, inr, ltb,
}
use mathlib.Core.Path.{ap₂}
use mathlib.Core.List.{append_assoc, append-nil}
use vault_drift.Chunk.Rabin.{Chunker, roll, at_boundary}
use vault_drift.Chunk.Chunker.{
  Reader, eof, fails, more, Result, ok, err, ChunkInfo, Collecting, collect_byte, collect_bytes,
  collect_rest, collect_reader, chunk_with_data, start_collecting,
}

-- What the reader gives in all, if it ends without another error than `io.EOF`.
abbrev pub contents : Reader → Result (List ℕ)
contents (eof bs) = ok bs
contents (fails bs e) = err e
contents (more bs r) = elim (contents r) [ ok rest ↦ ok (bs ++ rest) | err e ↦ err e ]

pub Result-cases {ℓ} :
    {A : Type ℓ} (r : Result A) → ((a : A) × (r ≡ ok a)) ⊎ ((e : String) × (r ≡ err e))
Result-cases (ok a) = inl (a, refl)
Result-cases (err e) = inr (e, refl)

-- The descriptions of chunks that stand one behind the other, the first at `offset`.
abbrev pub describe : (List ℕ → String) → ℕ → List (List ℕ) → List ChunkInfo
describe sha offset [] = []
describe sha offset (d ∷ ds) =
    record { hash = sha d; offset = offset; size = length d } ∷ describe sha (offset + length d) ds

describe-append :
    (sha : List ℕ → String) (offset : ℕ) (xs ys : List (List ℕ))
    → describe sha offset (xs ++ ys)
      ≡ describe sha offset xs ++ describe sha (offset + length (concat xs)) ys
describe-append sha o [] ys = ap (λ n. describe sha n ys) (omega arith)
describe-append sha o (x ∷ xs) ys =
    ap (λ l. record { hash = sha x; offset = o; size = length x } ∷ l)
      (describe-append sha (o + length x) xs ys
        ∙ ap (λ n. describe sha (o + length x) xs ++ describe sha n ys)
            (omega (arith, length-append x (concat xs))))

module _ (sha : List ℕ → String) (c : Chunker) where
  abbrev pub buffer : ℕ → Collecting → List ℕ
  buffer b s = s.chunk_buf ++ b ∷ []

  abbrev pub ends : ℕ → Collecting → Bool
  ends b s = at_boundary c (length (buffer b s)) (roll c b s.window).fingerprint

  pub collect_byte-cut :
      (b : ℕ) (s : Collecting)
      → ends b s ≡ true
      → collect_byte sha c b s ≡ record {
        chunk_buf = [];
        chunk_offset = s.offset + 1;
        offset = s.offset + 1;
        window = roll c b s.window;
        chunks =
            s.chunks
            ++ record {
              hash = sha (buffer b s);
              offset = s.chunk_offset;
              size = length (buffer b s);
            }
              ∷ [];
        chunk_data = s.chunk_data ++ buffer b s ∷ [];
      }
  unfolding collect_byte
  collect_byte-cut b s e = rw e

  pub collect_byte-keep :
      (b : ℕ) (s : Collecting)
      → ends b s ≡ false
      → collect_byte sha c b s
        ≡ record s { chunk_buf = buffer b s; offset = s.offset + 1; window = roll c b s.window }
  unfolding collect_byte
  collect_byte-keep b s e = rw e

  -- The state after the bytes `input`: what is cut and what is not yet cut make up the input, and
  -- the descriptions are those of the chunks that are cut.
  record Holds (input : List ℕ) (s : Collecting) : Type 0 where
    all_bytes : concat s.chunk_data ++ s.chunk_buf ≡ input
    described : s.chunks ≡ describe sha 0 s.chunk_data
    cut_at : s.chunk_offset ≡ length (concat s.chunk_data)
    read : s.offset ≡ length input

  concat_snoc : (xss : List (List ℕ)) (xs : List ℕ) → concat (xss ++ xs ∷ []) ≡ concat xss ++ xs
  concat_snoc xss xs = concat-append xss (xs ∷ []) ∙ ap (λ l. concat xss ++ l) (append-nil xs)

  describe_snoc :
      (d : List ℕ) (s : Collecting)
      → s.chunks ≡ describe sha 0 s.chunk_data
      → s.chunk_offset ≡ length (concat s.chunk_data)
      → s.chunks ++ record { hash = sha d; offset = s.chunk_offset; size = length d } ∷ []
        ≡ describe sha 0 (s.chunk_data ++ d ∷ [])
  describe_snoc d s e o = sym (
      describe-append sha 0 s.chunk_data (d ∷ [])
      ∙ ap₂ (λ l n. l ++ record { hash = sha d; offset = n; size = length d } ∷ []) (sym e)
          (omega (arith, o)))

  collect_byte-Holds :
      (b : ℕ) (input : List ℕ) (s : Collecting)
      → Holds input s
      → Holds (input ++ b ∷ []) (collect_byte sha c b s)
  collect_byte-Holds b input s h = elim (Bool-cases (ends b s)) [
    | inl cut ↦ rw (collect_byte-cut b s cut) (record {
      all_bytes = append-nil _ ∙ concat_snoc s.chunk_data (buffer b s) ∙ joined;
      described = describe_snoc (buffer b s) s h.described h.cut_at;
      cut_at = omega (
        arith,
        h.read,
        ap length (concat_snoc s.chunk_data (buffer b s) ∙ joined),
        length-append input (b ∷ []),
      );
      read = omega (arith, h.read, length-append input (b ∷ []));
    })
    | inr keep ↦ rw (collect_byte-keep b s keep) (record {
      all_bytes = joined;
      described = h.described;
      cut_at = h.cut_at;
      read = omega (arith, h.read, length-append input (b ∷ []));
    })
  ]
    where
      joined : concat s.chunk_data ++ (s.chunk_buf ++ b ∷ []) ≡ input ++ b ∷ []
      joined =
          sym (append_assoc (concat s.chunk_data) s.chunk_buf (b ∷ []))
          ∙ ap (λ l. l ++ b ∷ []) h.all_bytes

  collect_bytes-Holds :
      (bs input : List ℕ) (s : Collecting)
      → Holds input s
      → Holds (input ++ bs) (collect_bytes sha c bs s)
  unfolding collect_bytes
  collect_bytes-Holds [] input s h = rw (append-nil input) h
  collect_bytes-Holds (b ∷ bs) input s h = rw (sym (append_assoc input (b ∷ []) bs)) (
      collect_bytes-Holds bs (input ++ b ∷ []) (collect_byte sha c b s)
        (collect_byte-Holds b input s h))

  -- the answer for the bytes `input`
  abbrev IsAnswer : List ℕ → List ChunkInfo × List (List ℕ) → Type 0
  IsAnswer input (infos, pieces) = (concat pieces ≡ input) × (infos ≡ describe sha 0 pieces)

  collect_rest-IsAnswer :
      (input : List ℕ) (s : Collecting) → Holds input s → IsAnswer input (collect_rest sha c s)
  unfolding collect_rest
  collect_rest-IsAnswer input s h = elim (Bool-cases (ltb 0 (length s.chunk_buf))) [
    | inl left ↦ rw left (
      concat_snoc s.chunk_data s.chunk_buf ∙ h.all_bytes,
      describe_snoc s.chunk_buf s h.described h.cut_at,
    )
    | inr nothing ↦ rw nothing (
      sym (append-nil _)
          ∙ ap (λ l. concat s.chunk_data ++ l) (sym (empty s.chunk_buf nothing))
          ∙ h.all_bytes,
      h.described,
    )
  ]
    where
      empty : (l : List ℕ) → ltb 0 (length l) ≡ false → l ≡ []
      empty [] e = refl
      empty (x ∷ l) e = ground arith

  collect_bytes-append :
      (xs ys : List ℕ) (s : Collecting)
      → collect_bytes sha c (xs ++ ys) s ≡ collect_bytes sha c ys (collect_bytes sha c xs s)
  unfolding collect_bytes
  collect_bytes-append [] ys s = refl
  collect_bytes-append (x ∷ xs) ys s = collect_bytes-append xs ys (collect_byte sha c x s)

  -- How the reads are split does not matter.
  collect_reader-eof :
      (r : Reader) (s : Collecting) {input : List ℕ}
      → contents r ≡ ok input
      → collect_reader sha c r s ≡ ok (collect_rest sha c (collect_bytes sha c input s))
  unfolding collect_reader
  collect_reader-eof (eof bs) s {input} h =
      let q : bs ≡ input = cc in ap (λ l. ok (collect_rest sha c (collect_bytes sha c l s))) q
  collect_reader-eof (fails bs e) s h = absurd (cc)
  collect_reader-eof (more bs r) s {input} h = elim (Result-cases (contents r)) [
    | inl (rest, p) ↦
        let q : input ≡ bs ++ rest = ground (arith, p, h) in
        collect_reader-eof r (collect_bytes sha c bs s) p
        ∙ ap (λ t. ok (collect_rest sha c t))
            (sym (collect_bytes-append bs rest s) ∙ ap (λ l. collect_bytes sha c l s) (sym q))
    | inr (e, p) ↦ absurd (ground (arith, p, h))
  ]

  collect_reader-fails :
      (r : Reader) (s : Collecting) {e : String}
      → contents r ≡ err e
      → collect_reader sha c r s ≡ err e
  unfolding collect_reader
  collect_reader-fails (eof bs) s h = absurd (cc)
  collect_reader-fails (fails bs x) s h = cc
  collect_reader-fails (more bs r) s h = elim (Result-cases (contents r)) [
    | inl (rest, p) ↦ absurd (ground (arith, p, h))
    | inr (e, p) ↦ collect_reader-fails r (collect_bytes sha c bs s) (ground (arith, p, h))
  ]

  start-Holds : Holds [] (start_collecting c)
  start-Holds = record { all_bytes = refl; described = refl; cut_at = refl; read = refl }

  -- If the reads give the bytes `input` and then end, in whatever portions they come,
  -- `ChunkWithData` returns pieces whose concatenation is `input`, each described by its hash, its
  -- length and the offset at which it stands in `input`; and it returns what it returns for a
  -- single read of `input`.
  pub chunk_with_data-partitions :
      (r : Reader) (input : List ℕ)
      → contents r ≡ ok input
      → ((a : List ChunkInfo × List (List ℕ)) × (chunk_with_data sha c r ≡ ok a)
          × (concat a.1 ≡ input)
          × (a.0 ≡ describe sha 0 a.1))
        × (chunk_with_data sha c r ≡ chunk_with_data sha c (eof input))
  unfolding chunk_with_data
  chunk_with_data-partitions r input h =
      let s = collect_bytes sha c input (start_collecting c) in
      let q = collect_reader-eof r (start_collecting c) h in
      let a =
        collect_rest-IsAnswer input s
          (collect_bytes-Holds input [] (start_collecting c) start-Holds) in
      (
        (collect_rest sha c s, q, a.0, a.1),
        q ∙ sym (collect_reader-eof (eof input) (start_collecting c) refl),
      )

  -- If a read fails, `ChunkWithData` returns its error, whatever was read before.
  pub chunk_with_data-fails :
      (r : Reader) (e : String) → contents r ≡ err e → chunk_with_data sha c r ≡ err e
  unfolding chunk_with_data
  chunk_with_data-fails r e h = collect_reader-fails r (start_collecting c) h
