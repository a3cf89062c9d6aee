-- ===== src/Uploads/Sessions/Missing.antt =====
-- The chunks that a session of internal/server/handlers_upload.go misses.
use vault_drift.Common.{
  ℕ, zero, suc, ◌+◌, ◌==◌, ltb, ◌≡◌, refl, sym, ap, ◌∙◌, Bool, true, false, none, String, List, [],
  ◌∷◌, length, length-append, arith, Bool-cases, inl, inr, if◌then◌else◌,
}
use vault_drift.Common.IntMap.{IntMap, at, put, at-put}
use vault_drift.Uploads.{UploadSession, Status, pending, in_progress, completed}
use vault_drift.Uploads.Sessions.{if_absent, missing_below, record_chunk, status_with}

-- Each index stands once in the map, and is below `n`.
abbrev pub IsIndexed : ℕ → IntMap ℕ → Type 0
IsIndexed n [] = Unit
IsIndexed n ((index, size) ∷ m) = (ltb index n ≡ true) × (at index m ≡ none) × IsIndexed n m

missing-nil : (n : ℕ) → length (missing_below n []) ≡ n
unfolding missing_below at
missing-nil zero = refl
missing-nil (suc n) = omega (arith, missing-nil n, length-append (missing_below n []) (n ∷ []))

-- One more index below `n` is one missing chunk less.
missing-cons :
    (n index size : ℕ) (m : IntMap ℕ)
    → at index m ≡ none
    → length (missing_below n ((index, size) ∷ m)) + (if ltb index n then 1 else 0)
      ≡ length (missing_below n m)
unfolding missing_below at
missing-cons zero index size m absent = ground arith
missing-cons (suc n) index size m absent =
    let rest = missing-cons n index size m absent in
    let split = length-append (missing_below n m) (if_absent (at n m) n) in
    let all = missing_below n ((index, size) ∷ m) in
    elim (Bool-cases (index == n)) [
      | inl same ↦
          let later : ltb index n ≡ false = ground (arith, same) in
          let now : ltb index (suc n) ≡ true = ground (arith, same) in
          let e : index ≡ n = ground (arith, same) in
          let gone : at n m ≡ none = ap (λ k. at k m) (sym e) ∙ absent in
          let one : length (if_absent (at n m) n) ≡ 1 = ap (λ o. length (if_absent o n)) gone in
          let before : length all ≡ length (missing_below n m) = ground (arith, rest, later) in
          rw (same, now) (omega (arith, length-append all [], split, one, before))
      | inr differ ↦
          let k : ltb index (suc n) ≡ ltb index n = ground (arith, differ) in
          rw (differ, k) (omega (arith, length-append all (if_absent (at n m) n), split, rest))
    ]

-- The missing chunks and the uploaded ones are all of them.
pub missing_below-length :
    (n : ℕ) (m : IntMap ℕ) → IsIndexed n m → length (missing_below n m) + length m ≡ n
missing_below-length n [] indexed = omega (arith, missing-nil n)
missing_below-length n ((index, size) ∷ m) (below, absent, indexed) =
    let rest = missing_below-length n m indexed in
    let less = missing-cons n index size m absent in ground (arith, rest, less, below)

put-IsIndexed :
    (n index size : ℕ) (m : IntMap ℕ)
    → ltb index n ≡ true
    → at index m ≡ none
    → IsIndexed n m
    → IsIndexed n (put index size m)
unfolding put at
put-IsIndexed n index size [] below absent indexed = (below, refl, tt)
put-IsIndexed n index size ((own, old) ∷ m) below absent (lower, apart, indexed) =
    elim (Bool-cases (own == index)) [
      | inl same ↦ absurd (ground (arith, absent, same))
      | inr differ ↦
          let there : at index m ≡ none = ground (arith, absent, differ) in
          let back : (index == own) ≡ false = ground (arith, differ) in
          rw differ (
            lower,
            at-put index own size m ∙ rw (back, apart) refl,
            put-IsIndexed n index size m below there indexed,
          )
    ]

abbrev pub is_completed : Status → Bool
is_completed pending = false
is_completed in_progress = false
is_completed completed = true

-- A session's chunks are in range, and its status is completed just when all are there.
abbrev pub IsWell : UploadSession → Type 0
IsWell s =
    IsIndexed s.total_chunks s.chunks
    × (is_completed s.status ≡ (length s.chunks == s.total_chunks))

pub record_chunk-IsWell :
    (index size : ℕ) (hashes : List String) (s : UploadSession)
    → ltb index s.total_chunks ≡ true
    → at index s.chunks ≡ none
    → IsWell s
    → IsWell (record_chunk index size hashes s)
unfolding record_chunk
record_chunk-IsWell index size hashes s below absent well = (
  put-IsIndexed s.total_chunks index size s.chunks below absent well.0,
  told (length (put index size s.chunks) == s.total_chunks),
)
  where
    told : (b : Bool) → is_completed (status_with b) ≡ b
    told true = refl
    told false = refl
