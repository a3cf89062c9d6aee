-- ===== src/Tests/Manifest.antt =====
-- A file stored as encrypted chunks and written back, and the index of known chunks.
use vault_drift.Common.{
  ℕ, ◌≡◌, ◌≢◌, refl, ◌==◌, str_eq, eq_iff, false, Bool-cases, inl, inr, String, none, some, Option,
  List, [], ◌∷◌, arith, length, if◌then◌else◌,
}
use vault_drift.Common.Dict.{insert}
use vault_drift.Chunk.Rabin.{Chunker, new_window, roll, at_boundary}
use vault_drift.Chunk.Chunker.{Reader, eof, more, Result, ok, err, ChunkInfo, chunk_with_data}
use vault_drift.Chunk.Manifest.{
  Manifest, Storage, encrypt_and_store, reassemble_decrypt, returns, fails, put_failed,
}
use vault_drift.Chunk.Manifest.Pieces.{NoCollision}
use vault_drift.Chunk.Manifest.RoundTrip.{encrypt_and_store-reassembles}

abbrev tiny : Chunker
tiny = record {
  min_size = 2;
  avg_size = 2;
  max_size = 3;
  window_size = 2;
  mask = 1;
  table = record { polynomial = 11; degree = 3; out_table = []; mod_table = [] };
}

abbrev sha : List ℕ → String
sha bytes = if length bytes == 3 then "c" else if length bytes == 2 then "b" else "a"

abbrev info : String → ℕ → ℕ → ChunkInfo
info hash offset size = record { hash = hash; offset = offset; size = size }

abbrev portions : Reader
portions = more (1 ∷ 3 ∷ []) (more (5 ∷ 4 ∷ 2 ∷ []) (eof (6 ∷ [])))

abbrev input : List ℕ
input = 1 ∷ 3 ∷ 5 ∷ 4 ∷ 2 ∷ 6 ∷ []

abbrev infos : List ChunkInfo
infos = info "c" 0 3 ∷ info "b" 3 2 ∷ info "a" 5 1 ∷ []

abbrev pieces : List (List ℕ)
pieces = (1 ∷ 3 ∷ 5 ∷ []) ∷ (4 ∷ 2 ∷ []) ∷ (6 ∷ []) ∷ []

-- A cipher that puts its random bytes before the text.
abbrev encrypt : List ℕ → List ℕ → ℕ → Result (List ℕ)
encrypt plain key nonce = ok (nonce ∷ plain)

abbrev decrypt : List ℕ → List ℕ → Result (List ℕ)
decrypt [] key = err "too short"
decrypt (nonce ∷ plain) key = ok plain

abbrev put_error : String → List ℕ → Storage → Option String
put_error hash sealed stored = none

abbrev write : List ℕ → List ℕ → Option String
write written plain = none

chunked : chunk_with_data sha tiny portions ≡ ok (infos, pieces)
unfolding chunk_with_data new_window roll at_boundary
chunked = refl

unequal : (a b : String) → str_eq a b ≡ false → a ≢ b
unequal a b h e = absurd (ground (arith, eq_iff a b, h, e))

apart : NoCollision sha pieces
apart = (
  ((λ e. absurd (unequal "b" "c" refl e)), ((λ e. absurd (unequal "a" "c" refl e)), tt)),
  (((λ e. absurd (unequal "a" "b" refl e)), tt), (tt, tt)),
)

hashed : (bytes : List ℕ) → sha bytes ≢ ""
hashed bytes = elim (Bool-cases (length bytes == 3)) [
  | inl e ↦ rw e (λ h. absurd (cc))
  | inr e ↦ elim (Bool-cases (length bytes == 2)) [
    | inl f ↦ rw (e, f) (λ h. absurd (cc))
    | inr f ↦ rw (e, f) (λ h. absurd (cc))
  ]
]

encrypt_and_store-reassembles_example :
    (m : Manifest) × (after : Storage) × (encrypt_and_store encrypt decrypt put_error
        (ok "m1")
        "f1"
        "d1"
        (7 ∷ [])
        (chunk_with_data sha tiny portions)
        []
      ≡ (returns m, after))
    × (m.size ≡ 6)
    × (reassemble_decrypt encrypt decrypt write (7 ∷ []) m after ≡ (none, input))
encrypt_and_store-reassembles_example =
    encrypt_and_store-reassembles encrypt decrypt put_error write sha tiny portions "m1" "f1" "d1"
      (7 ∷ []) input [] infos pieces (λ plain nonce. (nonce ∷ plain, refl, refl))
      (λ hash sealed stored. refl) (λ written plain. refl) hashed (omega arith) (omega arith)
      (λ e. absurd (cc)) (λ e. absurd (cc)) refl (omega arith) chunked apart

-- A backend that refuses the second chunk: the first one stays, and there is no manifest.
abbrev full : String → List ℕ → Storage → Option String
full hash sealed stored = if str_eq hash "b" then some "full" else none

one_put :
    encrypt_and_store encrypt decrypt full (ok "m1") "f1" "d1" (7 ∷ []) (ok (infos, pieces)) []
    ≡ (fails (put_failed "full"), ("c", 0 ∷ 1 ∷ 3 ∷ 5 ∷ []) ∷ [])
unfolding encrypt_and_store insert
one_put = refl
