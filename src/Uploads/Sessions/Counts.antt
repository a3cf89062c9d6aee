-- ===== src/Uploads/Sessions/Counts.antt =====
-- How often the hashes of a session in internal/server/handlers_upload.go name a chunk.
use vault_drift.Common.{
  ℕ, zero, suc, ◌+◌, ◌≤◌, ◌==◌, ltb, ◌≡◌, refl, true, false, String, List, [], ◌∷◌, ◌++◌, arith,
  Bool-cases, inl, inr, if◌then◌else◌,
}
use vault_drift.Common.IntMap.{IntMap, at, put}
use vault_drift.Garbage.Collector.Release.{count}
use vault_drift.Uploads.Sessions.{or_empty, hashes_below, hashes_in}

pub count-append :
    (hash : String) (front back : List String)
    → count hash (front ++ back) ≡ count hash front + count hash back
count-append hash [] back = omega arith
count-append hash (other ∷ front) back = omega (arith, count-append hash front back)

-- Recording the hashes of a chunk adds no more than them.
pub hashes_in-put :
    (hash : String) (index : ℕ) (hashes : List String) (m : IntMap (List String))
    → count hash (hashes_in (put index hashes m)) ≤ count hash (hashes_in m) + count hash hashes
unfolding hashes_in put
hashes_in-put hash index hashes [] = omega (arith, count-append hash hashes [])
hashes_in-put hash index hashes ((own, old) ∷ m) = elim (Bool-cases (own == index)) [
  | inl same ↦
      rw same
        (omega (arith, count-append hash hashes (hashes_in m), count-append hash old (hashes_in m)))
  | inr differ ↦ rw differ (
      omega (
        arith,
        count-append hash old (hashes_in (put index hashes m)),
        count-append hash old (hashes_in m),
        hashes_in-put hash index hashes m,
      ))
]

below-nil : (n : ℕ) → hashes_below n [] ≡ []
unfolding hashes_below at
below-nil zero = refl
below-nil (suc n) = rw (below-nil n) refl

-- What one entry adds to the hashes collected by index.
below-cons :
    (hash : String) (n own : ℕ) (hashes : List String) (m : IntMap (List String))
    → count hash (hashes_below n ((own, hashes) ∷ m))
      ≤ (if ltb own n then count hash hashes else 0) + count hash (hashes_below n m)
unfolding hashes_below at
below-cons hash zero own hashes m = omega arith
below-cons hash (suc n) own hashes m =
    let split = count-append hash (hashes_below n m) (or_empty (at n m)) in
    let rest = below-cons hash n own hashes m in
    let all = hashes_below n ((own, hashes) ∷ m) in
    elim (Bool-cases (own == n)) [
      | inl same ↦
          let later : ltb own n ≡ false = ground (arith, same) in
          let now : ltb own (suc n) ≡ true = ground (arith, same) in
          let before : count hash all ≤ count hash (hashes_below n m) =
            ground (arith, rest, later) in
          rw (same, now) (omega (arith, count-append hash all hashes, split, before))
      | inr differ ↦
          let k : ltb own (suc n) ≡ ltb own n = ground (arith, differ) in
          rw (differ, k) (omega (arith, count-append hash all (or_empty (at n m)), split, rest))
    ]

-- Collecting the hashes by index gives none that the session does not hold.
pub hashes_below-count :
    (hash : String) (n : ℕ) (m : IntMap (List String))
    → count hash (hashes_below n m) ≤ count hash (hashes_in m)
unfolding hashes_in
hashes_below-count hash n [] = rw (below-nil n) (omega arith)
hashes_below-count hash n ((own, hashes) ∷ m) =
    let rest = hashes_below-count hash n m in
    let step = below-cons hash n own hashes m in
    let split = count-append hash hashes (hashes_in m) in ground (arith, rest, step, split)
