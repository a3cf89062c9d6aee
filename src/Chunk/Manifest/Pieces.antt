-- ===== src/Chunk/Manifest/Pieces.antt =====
-- The pieces of a file in the storage: what the loops of `EncryptAndStore` put there, the loop of
-- `ReassembleDecrypt` finds (internal/chunk/encrypted.go).
use mathlib.Core.List.{append_assoc, append-nil}
use vault_drift.Common.{
  ℕ, suc, ◌+◌, ◌<◌, ◌≡◌, ◌≢◌, refl, sym, ap, ◌∙◌, String, Option, none, some, List, [], ◌∷◌, ◌++◌,
  All, length, length-append, concat, arith, str_eq, eq_iff, Bool-cases, inl, inr,
}
use vault_drift.Common.Dict.{lookup, insert, lookup-insert}
use vault_drift.Chunk.Chunker.{Result, ok, ChunkInfo}
use vault_drift.Chunk.Chunker.Contents.{describe}
use vault_drift.Chunk.Manifest.{
  Storage, returns, total_size, validate_chunks, encrypt_all, put_all, open_chunk, reassemble_loop,
}

-- What the storage holds when every `Put` of the loop of `EncryptAndStore` goes through.
unfoldable pub stored_all : List ChunkInfo → List (List ℕ) → Storage → Storage
stored_all (info ∷ infos) (sealed ∷ rest) store =
    stored_all infos rest (insert info.hash sealed store)
stored_all _ _ store = store

pub put_all-accepted :
    (encrypt : List ℕ → List ℕ → ℕ → Result (List ℕ)) (decrypt : List ℕ → List ℕ → Result (List ℕ))
    (put_error : String → List ℕ → Storage → Option String)
    → ((hash : String) (sealed : List ℕ) (stored : Storage) → put_error hash sealed stored ≡ none)
    → (infos : List ChunkInfo) (sealed : List (List ℕ)) (store : Storage)
    → put_all encrypt decrypt put_error infos sealed store ≡ (none, stored_all infos sealed store)
unfolding put_all stored_all
put_all-accepted encrypt decrypt put_error puts [] sealed store = refl
put_all-accepted encrypt decrypt put_error puts (info ∷ infos) [] store = refl
put_all-accepted encrypt decrypt put_error puts (info ∷ infos) (s ∷ sealed) store =
    rw (puts info.hash s store, put_all)
      (put_all-accepted encrypt decrypt put_error puts infos sealed (insert info.hash s store))

module _ (sha : List ℕ → String) where
  -- No two of the pieces have one hash and differ.
  abbrev pub NoCollision : List (List ℕ) → Type 0
  NoCollision [] = Unit
  NoCollision (p ∷ ps) = All (λ q. sha q ≡ sha p → q ≡ p) ps × NoCollision ps

  pub total_size-describe :
      (offset : ℕ) (pieces : List (List ℕ))
      → total_size (describe sha offset pieces) ≡ length (concat pieces)
  unfolding total_size
  total_size-describe offset [] = refl
  total_size-describe offset (p ∷ ps) =
      omega (arith, total_size-describe (offset + length p) ps, length-append p (concat ps))

  pub validate_chunks-describe :
      ((bytes : List ℕ) → sha bytes ≢ "")
      → (i offset : ℕ) (pieces : List (List ℕ)) → All (λ p. 0 < length p) pieces
      → validate_chunks i (describe sha offset pieces) ≡ none
  unfolding validate_chunks
  validate_chunks-describe hashed i offset [] h = refl
  validate_chunks-describe hashed i offset (p ∷ ps) h =
      rw (validate_chunks-describe hashed (suc i) (offset + length p) ps h.1)
        (ground (arith, eq_iff (sha p) "", hashed p, h.0))

  module _ (encrypt : List ℕ → List ℕ → ℕ → Result (List ℕ))
      (decrypt : List ℕ → List ℕ → Result (List ℕ)) (key : List ℕ) where
    -- The storage has a piece, encrypted, under its hash.
    pub record Holds (store : Storage) (p : List ℕ) : Type 0 where
      pub sealed : List ℕ
      pub found : lookup (sha p) store ≡ some sealed
      pub opens : decrypt sealed key ≡ ok p

    -- What the pieces are encrypted to.
    abbrev pub Opens : List (List ℕ) → List (List ℕ) → Type 0
    Opens [] [] = Unit
    Opens (s ∷ ss) [] = ⊥
    Opens [] (p ∷ ps) = ⊥
    Opens (s ∷ ss) (p ∷ ps) = (decrypt s key ≡ ok p) × Opens ss ps

    insert-Holds :
        (store : Storage) (p q s : List ℕ)
        → (sha q ≡ sha p → q ≡ p)
        → decrypt s key ≡ ok q
        → Holds store p
        → Holds (insert (sha q) s store) p
    insert-Holds store p q s same e h = elim (Bool-cases (str_eq (sha q) (sha p))) [
      | inl hit ↦ record {
        sealed = s;
        found = ground (arith, lookup-insert (sha q) (sha p) s store, hit);
        opens = rw (← same ((eq_iff (sha q) (sha p)).0 hit)) e;
      }
      | inr miss ↦ record {
        sealed = h.sealed;
        found = ground (arith, lookup-insert (sha q) (sha p) s store, miss, h.found);
        opens = h.opens;
      }
    ]

    stored_all-keeps :
        (offset : ℕ) (pieces sealed : List (List ℕ)) (store : Storage) (p : List ℕ)
        → All (λ q. sha q ≡ sha p → q ≡ p) pieces
        → Opens sealed pieces
        → Holds store p
        → Holds (stored_all (describe sha offset pieces) sealed store) p
    unfolding stored_all
    stored_all-keeps offset [] ss store p same opens h = h
    stored_all-keeps offset (q ∷ qs) [] store p same opens h = absurd opens
    stored_all-keeps offset (q ∷ qs) (s ∷ ss) store p same opens h =
        stored_all-keeps (offset + length q) qs ss (insert (sha q) s store) p same.1 opens.1
          (insert-Holds store p q s same.0 opens.0 h)

    pub stored_all-Holds :
        (offset : ℕ) (pieces sealed : List (List ℕ)) (store : Storage)
        → NoCollision pieces
        → Opens sealed pieces
        → All (Holds (stored_all (describe sha offset pieces) sealed store)) pieces
    unfolding stored_all
    stored_all-Holds offset [] ss store apart opens = tt
    stored_all-Holds offset (q ∷ qs) [] store apart opens = absurd opens
    stored_all-Holds offset (q ∷ qs) (s ∷ ss) store apart opens = (
      stored_all-keeps (offset + length q) qs ss (insert (sha q) s store) q apart.0 opens.1
          (record {
            sealed = s;
            found = ground (arith, lookup-insert (sha q) (sha q) s store, eq_iff (sha q) (sha q));
            opens = opens.0;
          }),
      stored_all-Holds (offset + length q) qs ss (insert (sha q) s store) apart.1 opens.1,
    )

    open_chunk-Holds :
        (store : Storage) (p : List ℕ) (offset : ℕ)
        → Holds store p
        → open_chunk encrypt decrypt key
            (record { hash = sha p; offset = offset; size = length p })
            store
          ≡ returns p
    unfolding open_chunk
    open_chunk-Holds store p offset h = rw (h.found, open_chunk, h.opens) (ground (arith))

    pub reassemble_loop-writes :
        (write : List ℕ → List ℕ → Option String)
        → ((written plain : List ℕ) → write written plain ≡ none)
        → (offset : ℕ) (pieces : List (List ℕ)) (store : Storage) (written : List ℕ)
        → All (Holds store) pieces
        → reassemble_loop encrypt decrypt write key (describe sha offset pieces) store written
          ≡ (none, written ++ concat pieces)
    unfolding reassemble_loop
    reassemble_loop-writes write accepts offset [] store written h =
        ap (λ xs. (none, xs)) (sym (append-nil written))
    reassemble_loop-writes write accepts offset (p ∷ ps) store written h =
        rw (open_chunk-Holds store p offset h.0, reassemble_loop, accepts written p)
          (reassemble_loop-writes write accepts (offset + length p) ps store (written ++ p) h.1
            ∙ ap (λ xs. (none, xs)) (append_assoc written p (concat ps)))

    module _
        (works : (plain : List ℕ) (nonce : ℕ)
          → (sealed : List ℕ) × (encrypt plain key nonce ≡ ok sealed)
            × (decrypt sealed key ≡ ok plain)) where
      pub encrypt_all-Opens :
          (nonce : ℕ) (pieces : List (List ℕ))
          → (sealed : List (List ℕ)) × (encrypt_all encrypt decrypt key nonce pieces
              ≡ returns sealed)
            × Opens sealed pieces
      unfolding encrypt_all
      encrypt_all-Opens nonce [] = ([], refl, tt)
      encrypt_all-Opens nonce (p ∷ ps) =
          let (s, made, opens) = works p nonce in
          let (ss, rest, all) = encrypt_all-Opens (suc nonce) ps in
          (s ∷ ss, rw (made, encrypt_all, rest) refl, (opens, all))
