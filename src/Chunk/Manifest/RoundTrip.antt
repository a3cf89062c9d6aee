-- ===== src/Chunk/Manifest/RoundTrip.antt =====
-- A file that `EncryptAndStore` stores is what `ReassembleDecrypt` writes.
use mathlib.Core.Path.{subst}
use vault_drift.Common.{
  ℕ, ◌≤◌, ◌<◌, ◌≡◌, ◌≢◌, refl, sym, ap, ◌∙◌, ◌==◌, String, false, Option, none, List, [], ◌∷◌, All,
  All-append, All-map, length, concat, arith, eq_iff,
}
use vault_drift.Chunk.Rabin.{Chunker}
use vault_drift.Chunk.Chunker.{Reader, Result, ok, ChunkInfo, chunk_with_data}
use vault_drift.Chunk.Chunker.Contents.{contents, describe, chunk_with_data-partitions}
use vault_drift.Chunk.Chunker.Bounds.{IsBounded, chunk_with_data-IsBounded}
use vault_drift.Chunk.Manifest.{
  Manifest, Storage, returns, new_manifest, validate, chunk_encrypted, encrypt_and_store,
  reassemble_loop, reassemble_decrypt,
}
use vault_drift.Chunk.Manifest.Pieces.{
  stored_all, put_all-accepted, NoCollision, total_size-describe, validate_chunks-describe,
  stored_all-Holds, reassemble_loop-writes, encrypt_all-Opens,
}

-- Pieces of a chunking are not empty.
IsBounded-nonempty :
    (c : Chunker) (pieces : List (List ℕ)) → IsBounded c pieces → All (λ p. 0 < length p) pieces
IsBounded-nonempty c pieces b = subst (All (λ p. 0 < length p)) (sym b.split) (
    All-append _ b.full b.last (All-map (λ p h. h.0) b.full b.full_sizes)
      (All-map (λ p h. h.0) b.last b.last_size))

-- some bytes make some pieces
concat-nonempty :
    (pieces : List (List ℕ)) → 0 < length (concat pieces) → (length pieces == 0) ≡ false
concat-nonempty [] h = absurd (omega arith)
concat-nonempty (p ∷ ps) h = ground arith

validate-new :
    (sha : List ℕ → String)
    → ((bytes : List ℕ) → sha bytes ≢ "")
    → (id file_id device_id : String) (pieces : List (List ℕ)) → id ≢ ""
    → file_id ≢ ""
    → 0 < length (concat pieces)
    → All (λ p. 0 < length p) pieces
    → validate (new_manifest id file_id device_id (describe sha 0 pieces)) ≡ none
unfolding validate new_manifest
validate-new sha hashed id file_id device_id [] named owned bytes h = absurd (omega arith)
validate-new sha hashed id file_id device_id (p ∷ ps) named owned bytes h =
    rw (validate_chunks-describe sha hashed 0 0 (p ∷ ps) h)
      (ground (arith, eq_iff id "", eq_iff file_id "", named, owned))

-- The round trip, for the pieces of a chunking.
pieces-reassemble :
    (encrypt : List ℕ → List ℕ → ℕ → Result (List ℕ)) (decrypt : List ℕ → List ℕ → Result (List ℕ))
    (put_error : String → List ℕ → Storage → Option String)
    (write : List ℕ → List ℕ → Option String) (sha : List ℕ → String)
    (id file_id device_id : String) (key : List ℕ) (store : Storage) (pieces : List (List ℕ))
    → ((plain : List ℕ) (nonce : ℕ)
        → (sealed : List ℕ) × (encrypt plain key nonce ≡ ok sealed)
          × (decrypt sealed key ≡ ok plain))
    → ((hash : String) (sealed : List ℕ) (stored : Storage) → put_error hash sealed stored ≡ none)
    → ((written plain : List ℕ) → write written plain ≡ none)
    → validate (new_manifest id file_id device_id (describe sha 0 pieces)) ≡ none
    → NoCollision sha pieces
    → (m : Manifest) × (after : Storage) × (encrypt_and_store encrypt decrypt put_error
          (ok id)
          file_id
          device_id
          key
          (ok (describe sha 0 pieces, pieces))
          store
        ≡ (returns m, after))
      × (m.size ≡ length (concat pieces))
      × (reassemble_decrypt encrypt decrypt write key m after ≡ (none, concat pieces))
unfolding encrypt_and_store chunk_encrypted reassemble_decrypt
pieces-reassemble encrypt decrypt put_error write sha id file_id device_id key store pieces works
      puts accepts valid apart =
    let (sealed, made, opens) = encrypt_all-Opens sha encrypt decrypt key works 0 pieces in
    let infos = describe sha 0 pieces in
    let after = stored_all infos sealed store in
    (
      new_manifest id file_id device_id infos,
      after,
      rw
          (
            made,
            encrypt_and_store,
            put_all-accepted encrypt decrypt put_error puts infos sealed store,
          )
          refl,
      size,
      rw (valid, reassemble_decrypt)
          (ap (λ cs. reassemble_loop encrypt decrypt write key cs after []) chunks
            ∙ reassemble_loop-writes sha encrypt decrypt key write accepts 0 pieces after []
                (stored_all-Holds sha encrypt decrypt key 0 pieces sealed store apart opens)),
    )
  where
    chunks :
        (new_manifest id file_id device_id (describe sha 0 pieces)).chunks ≡ describe sha 0 pieces
    chunks = unfold new_manifest in refl

    size : (new_manifest id file_id device_id (describe sha 0 pieces)).size ≡ length (concat pieces)
    size = unfold new_manifest in total_size-describe sha 0 pieces

-- What `EncryptAndStore` stores, `ReassembleDecrypt` writes. For a reader that gives at least one
-- byte and then ends, a chunker with `min <= max` and `max > 0`, a cipher that opens what it seals
-- with the key, a backend whose `Put` does not fail, a draw of a manifest id that gives one, hashes that are not
-- empty and tell the pieces apart, ids that are not empty, and a writer that takes every chunk: `EncryptAndStore` returns a manifest of the file's size, and
-- `ReassembleDecrypt` with this manifest and key writes the bytes that were read and returns nil.
pub encrypt_and_store-reassembles :
    (encrypt : List ℕ → List ℕ → ℕ → Result (List ℕ)) (decrypt : List ℕ → List ℕ → Result (List ℕ))
    (put_error : String → List ℕ → Storage → Option String)
    (write : List ℕ → List ℕ → Option String) (sha : List ℕ → String) (c : Chunker) (r : Reader)
    (id file_id device_id : String) (key input : List ℕ) (store : Storage) (infos : List ChunkInfo)
    (pieces : List (List ℕ))
    → ((plain : List ℕ) (nonce : ℕ)
        → (sealed : List ℕ) × (encrypt plain key nonce ≡ ok sealed)
          × (decrypt sealed key ≡ ok plain))
    → ((hash : String) (sealed : List ℕ) (stored : Storage) → put_error hash sealed stored ≡ none)
    → ((written plain : List ℕ) → write written plain ≡ none)
    → ((bytes : List ℕ) → sha bytes ≢ "")
    → c.min_size ≤ c.max_size
    → 0 < c.max_size
    → id ≢ ""
    → file_id ≢ ""
    → contents r ≡ ok input
    → 0 < length input
    → chunk_with_data sha c r ≡ ok (infos, pieces)
    → NoCollision sha pieces
    → (m : Manifest) × (after : Storage) × (encrypt_and_store encrypt decrypt put_error
          (ok id)
          file_id
          device_id
          key
          (chunk_with_data sha c r)
          store
        ≡ (returns m, after))
      × (m.size ≡ length input)
      × (reassemble_decrypt encrypt decrypt write key m after ≡ (none, input))
encrypt_and_store-reassembles encrypt decrypt put_error write sha c r id file_id device_id key input
      store infos pieces works puts accepts hashed low high named owned reads bytes chunked apart =
    let ((a, e, whole, described), again) = chunk_with_data-partitions sha c r input reads in
    let same : ◌≡◌ {A = Result (List ChunkInfo × List (List ℕ))} (ok a) (ok (infos, pieces)) =
      sym e ∙ chunked in
    let same_infos : a.0 ≡ infos = cc in
    let same_pieces : a.1 ≡ pieces = cc in
    let all : concat pieces ≡ input = ap concat (sym same_pieces) ∙ whole in
    let told : infos ≡ describe sha 0 pieces =
      sym same_infos ∙ described ∙ ap (describe sha 0) same_pieces in
    let full =
      IsBounded-nonempty c pieces
        (chunk_with_data-IsBounded sha c low high r infos pieces chunked) in
    let valid =
      validate-new sha hashed id file_id device_id pieces named owned (rw all bytes) full in
    let (m, after, stored, size, opened) =
      pieces-reassemble encrypt decrypt put_error write sha id file_id device_id key store pieces
        works puts accepts valid apart in
    (
      m,
      after,
      ap (λ q. encrypt_and_store encrypt decrypt put_error (ok id) file_id device_id key q store)
            (chunked ∙ ap (λ cs. ok (cs, pieces)) told)
          ∙ stored,
      size ∙ ap length all,
      opened ∙ ap (λ xs. (none, xs)) all,
    )
