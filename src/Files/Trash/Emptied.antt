-- ===== src/Files/Trash/Emptied.antt =====
-- What `Empty` and `CleanupExpired` of internal/vfs/trash.go take away.
use vault_drift.Common.{
  ℕ, zero, suc, ◌-◌, ◌*◌, ◌≤◌, ◌≡◌, refl, ap, ◌∙◌, ◌&&◌, ◌||◌, Bool, true, false, none, String,
  List, [], ◌∷◌, All, All-map, length, take, take-all, str_eq, eq_iff, arith, Bool-cases,
  Option-cases, inl, inr,
}
use vault_drift.Common.Dict.{lookup}
use vault_drift.Files.{File, Files, count_trash}
use vault_drift.Files.Cascade.{mem, without, orphans, cascade, permanent_delete}
use vault_drift.Files.Rooted.{
  Row, All-without, All-zip, permanent_delete-some, permanent_delete-none,
}
use vault_drift.Files.Vfs.Found.{or_true}
use vault_drift.Files.Trash.{
  in_trash_of, insert_newest, trash_of, list_trash, delete_rows, ids_of, empty, expired,
  cleanup_expired, is_before,
}

-- What holds of all rows holds after a deletion.
cascade-All :
    (P : Row → Type 0) (fuel : ℕ) (ids : List String) (t : Files)
    → All P t
    → All P (cascade fuel ids t)
unfolding cascade
cascade-All P zero ids t all = all
cascade-All P (suc fuel) [] t all = all
cascade-All P (suc fuel) (id ∷ ids) t all =
    let kept : Files = without (id ∷ ids) t in
    cascade-All P fuel (orphans (id ∷ ids) kept) kept
      (All-map (λ entry both. both.0) kept (All-without P (id ∷ ids) t all))

-- The first round takes the rows of its ids.
cascade-gone :
    (P : Row → Type 0) (fuel : ℕ) (id : String) (ids : List String) (t : Files)
    → All P t
    → All (λ entry. P entry × (mem entry.0 (id ∷ ids) ≡ false)) (cascade (suc fuel) (id ∷ ids) t)
unfolding cascade
cascade-gone P fuel id ids t all =
    let kept : Files = without (id ∷ ids) t in
    cascade-All (λ entry. P entry × (mem entry.0 (id ∷ ids) ≡ false)) fuel (orphans (id ∷ ids) kept)
      kept (All-without P (id ∷ ids) t all)

absent-All :
    (id : String) (t : Files) → lookup id t ≡ none → All (λ entry. str_eq entry.0 id ≡ false) t
unfolding lookup
absent-All id [] absent = tt
absent-All id ((own, f) ∷ t) absent = elim (Bool-cases (str_eq own id)) [
  | inl same ↦ absurd (ground (arith, absent, same))
  | inr differ ↦ (differ, absent-All id t (ground (arith, absent, differ)))
]

-- The rows that a test picks are among the ids.
abbrev IsDoomed : (File → Bool) → List String → Row → Type 0
IsDoomed wanted ids entry = wanted entry.1 ≡ true → mem entry.0 ids ≡ true

delete_rows-All :
    (wanted : File → Bool) (ids : List String) (t : Files)
    → All (IsDoomed wanted ids) t
    → All (IsDoomed wanted []) (delete_rows ids t)
unfolding delete_rows mem
delete_rows-All wanted [] t all = all
delete_rows-All wanted (id ∷ ids) t all = delete_rows-All wanted ids (permanent_delete id t).1 later
  where
    rest :
        (entry : Row)
        → IsDoomed wanted (id ∷ ids) entry × (str_eq entry.0 id ≡ false)
        → IsDoomed wanted ids entry
    rest (own, f) (doomed, differ) picked =
        let there = doomed picked in ground (arith, there, differ, eq_iff own id, eq_iff id own)

    once :
        (entry : Row)
        → IsDoomed wanted (id ∷ ids) entry × (mem entry.0 (id ∷ []) ≡ false)
        → IsDoomed wanted ids entry
    once (own, f) (doomed, kept) =
        rest (own, f) (doomed, ground (arith, kept, eq_iff own id, eq_iff id own))

    later : All (IsDoomed wanted ids) (permanent_delete id t).1
    later = elim (Option-cases (lookup id t)) [
      | inl absent ↦ rw (permanent_delete-none id t absent) (
          All-map rest t (
            All-zip (IsDoomed wanted (id ∷ ids)) (λ entry. str_eq entry.0 id ≡ false) t all
              (absent-All id t absent)))
      | inr (f, found) ↦ rw (permanent_delete-some id f t found) (
          All-map once (cascade (suc (length t)) (id ∷ []) t)
            (cascade-gone (IsDoomed wanted (id ∷ ids)) (length t) id [] t all))
    ]

insert_newest-length : (entry : Row) (t : Files) → length (insert_newest entry t) ≡ suc (length t)
unfolding insert_newest
insert_newest-length entry [] = refl
insert_newest-length entry (first ∷ t) = ground (arith, insert_newest-length entry t)

pub trash_of-length : (user : String) (t : Files) → length (trash_of user t) ≡ count_trash user t
unfolding trash_of count_trash
trash_of-length user [] = refl
trash_of-length user ((id, f) ∷ t) = elim (Bool-cases (in_trash_of user f)) [
  | inl there ↦
      rw there (insert_newest-length (id, f) (trash_of user t) ∙ ap suc (trash_of-length user t))
  | inr live ↦ rw live (trash_of-length user t)
]

mem-insert_newest :
    (key id : String) (f : File) (t : Files)
    → mem key (ids_of (insert_newest (id, f) t)) ≡ (str_eq id key || mem key (ids_of t))
unfolding insert_newest mem
mem-insert_newest key id f [] = refl
mem-insert_newest key id f ((own, old) ∷ t) = ground (arith, mem-insert_newest key id f t)

trash_of-All :
    (user : String) (ids : List String) (t : Files)
    → ((key : String) → mem key (ids_of (trash_of user t)) ≡ true → mem key ids ≡ true)
    → All (IsDoomed (in_trash_of user) ids) t
unfolding trash_of
trash_of-All user ids [] within = tt
trash_of-All user ids ((id, f) ∷ t) within = (
  λ picked.
      within id
        (rw picked (mem-insert_newest id id f (trash_of user t) ∙ rw ((eq_iff id id).1 refl) refl)),
  trash_of-All user ids t (λ key found. within key (longer key found)),
)
  where
    longer :
        (key : String)
        → mem key (ids_of (trash_of user t)) ≡ true
        → mem key (ids_of (trash_of user ((id, f) ∷ t))) ≡ true
    longer key found = elim (Bool-cases (in_trash_of user f)) [
      | inl there ↦
          rw there
            (mem-insert_newest key id f (trash_of user t) ∙ rw found (or_true (str_eq id key)))
      | inr live ↦ rw live found
    ]

count_trash-zero :
    (user : String) (t : Files) → All (IsDoomed (in_trash_of user) []) t → count_trash user t ≡ 0
unfolding count_trash mem
count_trash-zero user [] all = refl
count_trash-zero user ((id, f) ∷ t) all = elim (Bool-cases (in_trash_of user f)) [
  | inl there ↦ absurd (ground (arith, all.0 there))
  | inr live ↦ rw live (count_trash-zero user t all.1)
]

-- `Empty` leaves no row of the user in the trash, if there were at most 100.
pub empty-count_trash :
    (user : String) (t : Files) → count_trash user t ≤ 100 → count_trash user (empty user t) ≡ 0
unfolding empty list_trash
empty-count_trash user t few =
    let all : take 100 (trash_of user t) ≡ trash_of user t =
      take-all 100 (trash_of user t) (omega (arith, trash_of-length user t, few)) in
    count_trash-zero user (empty user t) (
      delete_rows-All (in_trash_of user) (ids_of (take 100 (trash_of user t))) t
        (trash_of-All user _ t (λ key found. rw all found)))

expired-All :
    (cutoff : ℕ) (ids : List String) (t : Files)
    → ((key : String) → mem key (expired cutoff t) ≡ true → mem key ids ≡ true)
    → All (IsDoomed (λ f. f.is_trashed && is_before f.trashed_at cutoff) ids) t
unfolding expired mem
expired-All cutoff ids [] within = tt
expired-All cutoff ids ((id, f) ∷ t) within = (
  λ picked. within id (rw (picked, (eq_iff id id).1 refl) refl),
  expired-All cutoff ids t (λ key found. within key (longer key found)),
)
  where
    longer :
        (key : String)
        → mem key (expired cutoff t) ≡ true
        → mem key (expired cutoff ((id, f) ∷ t)) ≡ true
    longer key found = elim (Bool-cases (f.is_trashed && is_before f.trashed_at cutoff)) [
      | inl old ↦ rw (old, found) (or_true (str_eq id key))
      | inr young ↦ rw (young, found) refl
    ]

expired-nil :
    (cutoff : ℕ) (t : Files)
    → All (IsDoomed (λ f. f.is_trashed && is_before f.trashed_at cutoff) []) t
    → expired cutoff t ≡ []
unfolding expired mem
expired-nil cutoff [] all = refl
expired-nil cutoff ((id, f) ∷ t) all =
    elim (Bool-cases (f.is_trashed && is_before f.trashed_at cutoff)) [
      | inl old ↦ absurd (ground (arith, all.0 old))
      | inr young ↦ rw young (expired-nil cutoff t all.1)
    ]

-- `CleanupExpired` leaves no row in the trash that is older than the retention, however many there
-- were.
pub cleanup_expired-expired :
    (now retention_days : ℕ) (t : Files)
    → expired (now - retention_days * 86400) (cleanup_expired now retention_days t) ≡ []
unfolding cleanup_expired
cleanup_expired-expired now retention_days t =
    let cutoff : ℕ = now - retention_days * 86400 in
    expired-nil cutoff (cleanup_expired now retention_days t) (
      delete_rows-All (λ f. f.is_trashed && is_before f.trashed_at cutoff) (expired cutoff t) t
        (expired-All cutoff (expired cutoff t) t (λ key found. found)))
