-- ===== src/RateLimit/Cleanup.antt =====
-- Counting requests in the rate limiter of internal/server/middleware.go, and its cleanup.
use vault_drift.Common.{
  ℕ, ◌+◌, ◌≤◌, ◌≡◌, refl, ap, true, false, none, String, List, [], ◌∷◌, ◌++◌, str_eq, eq_iff, arith,
  Bool-cases, inl, inr,
}
use vault_drift.Common.Dict.{Dict, lookup, insert, lookup-insert}
use vault_drift.RateLimit.{after_cutoff, times_of, count_after, has_recent, cleanup_old_clients}

-- The requests of a client in a limiter.
abbrev pub times_in : String → Dict (List ℕ) → List ℕ
times_in client requests = times_of (lookup client requests)

pub count_after-later :
    (window now later : ℕ) (times : List ℕ)
    → now ≤ later
    → count_after window later times ≤ count_after window now times
unfolding count_after
count_after-later window now later [] past = omega arith
count_after-later window now later (t ∷ times) past =
    ground (arith, past, count_after-later window now later times past)

has_recent-count_after :
    (window now : ℕ) (times : List ℕ)
    → has_recent window now times ≡ false
    → count_after window now times ≡ 0
unfolding has_recent count_after
has_recent-count_after window now [] old = refl
has_recent-count_after window now (t ∷ times) old = elim (Bool-cases (after_cutoff window now t)) [
  | inl recent ↦ absurd (ground (arith, old, recent))
  | inr past ↦
      ground (arith, past, has_recent-count_after window now times (ground (arith, old, past)))
]

pub count_after-append :
    (window now : ℕ) (times back : List ℕ)
    → count_after window now (times ++ back)
      ≡ count_after window now times + count_after window now back
unfolding count_after
count_after-append window now [] back = omega arith
count_after-append window now (t ∷ times) back =
    ground (arith, count_after-append window now times back)

-- A Go map has no key twice.
unfoldable pub IsMap : Dict (List ℕ) → Type 0
unfolding lookup
IsMap [] = Unit
IsMap ((client, times) ∷ rest) = (lookup client rest ≡ none) × IsMap rest

pub insert-IsMap :
    (client : String) (times : List ℕ) (m : Dict (List ℕ)) → IsMap m → IsMap (insert client times m)
unfolding IsMap insert lookup
insert-IsMap client times [] once = (refl, tt)
insert-IsMap client times ((own, old) ∷ rest) once = elim (Bool-cases (str_eq own client)) [
  | inl same ↦ rw same (ground (arith, same, once.0, eq_iff own client), once.1)
  | inr differ ↦ rw differ (
    ground (
      arith,
      differ,
      once.0,
      lookup-insert client own times rest,
      eq_iff client own,
      eq_iff own client,
    ),
    insert-IsMap client times rest once.1,
  )
]

-- A key that is absent stays absent.
cleanup_old_clients-absent :
    (window now : ℕ) (client : String) (m : Dict (List ℕ))
    → lookup client m ≡ none
    → lookup client (cleanup_old_clients window now m) ≡ none
unfolding cleanup_old_clients lookup
cleanup_old_clients-absent window now client [] absent = refl
cleanup_old_clients-absent window now client ((own, times) ∷ rest) absent =
    ground (arith, absent, cleanup_old_clients-absent window now client rest)

pub cleanup_old_clients-IsMap :
    (window now : ℕ) (m : Dict (List ℕ)) → IsMap m → IsMap (cleanup_old_clients window now m)
unfolding IsMap cleanup_old_clients
cleanup_old_clients-IsMap window now [] once = tt
cleanup_old_clients-IsMap window now ((own, times) ∷ rest) once =
    elim (Bool-cases (has_recent window now times)) [
      | inl recent ↦ rw recent (
        cleanup_old_clients-absent window now own rest once.0,
        cleanup_old_clients-IsMap window now rest once.1,
      )
      | inr old ↦ rw old (cleanup_old_clients-IsMap window now rest once.1)
    ]

count_after-absent :
    (window later : ℕ) (client : String) (m : Dict (List ℕ))
    → lookup client m ≡ none
    → count_after window later (times_in client m) ≡ 0
unfolding count_after
count_after-absent window later client m absent =
    ap (λ found. count_after window later (times_of found)) absent

-- When a client has no recent request, its entry counts for nothing.
count_after-gone :
    (window now later : ℕ) (client own : String) (times : List ℕ) (rest : Dict (List ℕ))
    → now ≤ later
    → lookup own rest ≡ none
    → has_recent window now times ≡ false
    → str_eq own client ≡ true
    → count_after window later (times_in client (cleanup_old_clients window now rest))
      ≡ count_after window later times
count_after-gone window now later client own times rest past absent old same =
    let e = (eq_iff own client).0 same in
    let there = cleanup_old_clients-absent window now client rest (cc (e, absent)) in
    let left = count_after-absent window later client (cleanup_old_clients window now rest) there in
    let right = has_recent-count_after window now times old in
    omega (arith, left, right, count_after-later window now later times past)

-- The cleanup takes no request that a later count would count.
pub cleanup_old_clients-counts :
    (window now later : ℕ) (client : String) (m : Dict (List ℕ))
    → now ≤ later
    → IsMap m
    → count_after window later (times_in client (cleanup_old_clients window now m))
      ≡ count_after window later (times_in client m)
unfolding IsMap cleanup_old_clients lookup
cleanup_old_clients-counts window now later client [] past once = refl
cleanup_old_clients-counts window now later client ((own, times) ∷ rest) past once =
    let ih = cleanup_old_clients-counts window now later client rest past once.1 in
    elim (Bool-cases (has_recent window now times)) [
      | inl recent ↦ elim (Bool-cases (str_eq own client)) [
        | inl same ↦ rw (recent, same) refl
        | inr differ ↦ rw (recent, differ) ih
      ]
      | inr old ↦ elim (Bool-cases (str_eq own client)) [
        | inl same ↦
            rw (old, same)
              (count_after-gone window now later client own times rest past once.0 old same)
        | inr differ ↦ rw (old, differ) ih
      ]
    ]
