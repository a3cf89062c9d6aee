-- ===== src/Chunk/Manifest.antt =====
-- Manifests (internal/chunk/manifest.go), and files stored as encrypted chunks
-- (internal/chunk/encrypted.go). Sizes are not negative: they are lengths of byte lists. The
-- creation time of a manifest is not modelled, and neither is its JSON.
pub mod Pieces
pub mod RoundTrip
use vault_drift.Common.{
  ℕ, suc, ◌+◌, String, Bool, true, false, not, ◌==◌, Option, none, some, List, [], ◌∷◌, ◌++◌, map,
  length, str_eq, if◌then◌else◌,
}
use vault_drift.Common.Dict.{Dict, lookup, insert}
use vault_drift.Chunk.Rabin.{Chunker}
use vault_drift.Chunk.Chunker.{Reader, Result, ok, err, ChunkInfo, chunk_with_data}

-- `Manifest`
pub record Manifest : Type 0 where
  pub id : String
  pub file_id : String
  pub version : ℕ
  pub size : ℕ
  pub chunks : List ChunkInfo
  pub checksum : String
  pub device_id : String

-- `for _, c := range chunks { totalSize += int64(c.Size) }`
unfoldable pub total_size : List ChunkInfo → ℕ
total_size [] = 0
total_size (c ∷ cs) = c.size + total_size cs

-- `NewManifest`
unfoldable pub new_manifest : String → String → String → List ChunkInfo → Manifest
unfolding total_size
new_manifest id file_id device_id chunks = record {
  id = id;
  file_id = file_id;
  version = 1;
  size = total_size chunks;
  chunks = chunks;
  checksum = "";
  device_id = device_id;
}

-- `GetChunkHashes`
unfoldable pub get_chunk_hashes : Manifest → List String
get_chunk_hashes m = map (λ c. c.hash) m.chunks

-- `ChunkCount`
unfoldable pub chunk_count : Manifest → ℕ
chunk_count m = length m.chunks

pub data Invalid : Type 0 where
  id_required file_id_required no_chunks : Invalid
  no_hash bad_size : ℕ → Invalid

-- The loop of `Validate`, from chunk `i` on.
unfoldable pub validate_chunks : ℕ → List ChunkInfo → Option Invalid
validate_chunks i [] = none
validate_chunks i (c ∷ cs) =
    let rest = validate_chunks (suc i) cs in
    if str_eq c.hash "" then some (no_hash i) else if c.size == 0 then some (bad_size i) else rest

-- `Validate`
unfoldable pub validate : Manifest → Option Invalid
unfolding validate_chunks
validate m =
    if str_eq m.id ""
    then some id_required
    else if str_eq m.file_id ""
    then some file_id_required
    else if length m.chunks == 0
    then some no_chunks
    else validate_chunks 0 m.chunks

-- A storage backend: chunks by their key. `Put` writes over what is there.
abbrev pub Storage : Type 0
Storage = Dict (List ℕ)

-- The errors of the operations below, one for each message.
pub data Failure : Type 0 where
  chunking_failed encryption_failed decryption_failed write_failed put_failed id_failed :
      String → Failure
  invalid_manifest : Invalid → Failure
  chunk_missing : String → Failure
  size_mismatch : String → Failure

pub data Outcome {ℓ} (A : Type ℓ) : Type ℓ where
  returns : A → Outcome A
  fails : Failure → Outcome A

-- `encrypt plain key nonce`: `crypto.Encrypt` with the random bytes that the call draws.
module _ (encrypt : List ℕ → List ℕ → ℕ → Result (List ℕ))
    (decrypt : List ℕ → List ℕ → Result (List ℕ)) where
  -- The loop of `ChunkEncrypted`; `nonce` counts the draws.
  unfoldable pub encrypt_all : List ℕ → ℕ → List (List ℕ) → Outcome (List (List ℕ))
  encrypt_all key nonce [] = returns []
  encrypt_all key nonce (piece ∷ pieces) = elim (encrypt piece key nonce) [
    | err e ↦ fails (encryption_failed e)
    | ok sealed ↦ elim (encrypt_all key (suc nonce) pieces) [
      | fails e ↦ fails e
      | returns rest ↦ returns (sealed ∷ rest)
    ]
  ]

  abbrev pub with_infos :
      List ChunkInfo → Outcome (List (List ℕ)) → Outcome (List ChunkInfo × List (List ℕ))
  with_infos infos (fails e) = fails e
  with_infos infos (returns sealed) = returns (infos, sealed)

  -- `ChunkEncrypted`
  unfoldable pub chunk_encrypted :
      List ℕ → Result (List ChunkInfo × List (List ℕ)) → Outcome (List ChunkInfo × List (List ℕ))
  unfolding encrypt_all
  chunk_encrypted key (err e) = fails (chunking_failed e)
  chunk_encrypted key (ok (infos, pieces)) = with_infos infos (encrypt_all key 0 pieces)

  -- The loop of `EncryptAndStore` over the descriptions and the encrypted chunks, with the error of the
  -- backend's `Put` for a key and its bytes, given what is stored: the chunks before it stay.
  unfoldable pub put_all :
      (String → List ℕ → Storage → Option String)
      → List ChunkInfo
      → List (List ℕ)
      → Storage
      → Option String × Storage
  put_all put_error (info ∷ infos) (sealed ∷ rest) store = elim (put_error info.hash sealed store) [
    | some e ↦ (some e, store)
    | none ↦ put_all put_error infos rest (insert info.hash sealed store)
  ]
  put_all put_error _ _ store = (none, store)

  -- The part behind the loop, with the answer of `generateManifestID`.
  abbrev pub manifest_of :
      Result String
      → String
      → String
      → List ChunkInfo
      → Option String × Storage
      → Outcome Manifest × Storage
  manifest_of drawn file_id device_id infos (some e, store) = (fails (put_failed e), store)
  manifest_of (err e) file_id device_id infos (none, store) = (fails (id_failed e), store)
  manifest_of (ok id) file_id device_id infos (none, store) =
      (returns (new_manifest id file_id device_id infos), store)

  -- `EncryptAndStore`, with the id that it draws, or the error of the draw.
  unfoldable pub encrypt_and_store :
      (String → List ℕ → Storage → Option String)
      → Result String
      → String
      → String
      → List ℕ
      → Result (List ChunkInfo × List (List ℕ))
      → Storage
      → Outcome Manifest × Storage
  unfolding chunk_encrypted put_all new_manifest
  encrypt_and_store put_error drawn file_id device_id key chunked store =
      elim (chunk_encrypted key chunked) [
        | fails e ↦ (fails e, store)
        | returns (infos, sealed) ↦
            manifest_of drawn file_id device_id infos (put_all put_error infos sealed store)
      ]

  -- One chunk of `ReassembleDecrypt`: what the storage has for it, decrypted, of the right size.
  unfoldable pub open_chunk : List ℕ → ChunkInfo → Storage → Outcome (List ℕ)
  open_chunk key info store = elim (lookup info.hash store) [
    | none ↦ fails (chunk_missing info.hash)
    | some sealed ↦ elim (decrypt sealed key) [
      | err e ↦ fails (decryption_failed e)
      | ok plain ↦
          if length plain == info.size then returns plain else fails (size_mismatch info.hash)
    ]
  ]

  -- The loop of `ReassembleDecrypt`, with the writer's error for a chunk, given the bytes before.
  unfoldable pub reassemble_loop :
      (List ℕ → List ℕ → Option String)
      → List ℕ
      → List ChunkInfo
      → Storage
      → List ℕ
      → Option Failure × List ℕ
  unfolding open_chunk
  reassemble_loop write key [] store written = (none, written)
  reassemble_loop write key (info ∷ infos) store written = elim (open_chunk key info store) [
    | fails e ↦ (some e, written)
    | returns plain ↦ elim (write written plain) [
      | some e ↦ (some (write_failed e), written)
      | none ↦ reassemble_loop write key infos store (written ++ plain)
    ]
  ]

  -- `ReassembleDecrypt`
  unfoldable pub reassemble_decrypt :
      (List ℕ → List ℕ → Option String) → List ℕ → Manifest → Storage → Option Failure × List ℕ
  unfolding validate reassemble_loop
  reassemble_decrypt write key m store = elim (validate m) [
    | some e ↦ (some (invalid_manifest e), [])
    | none ↦ reassemble_loop write key m.chunks store []
  ]
