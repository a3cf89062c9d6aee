-- ===== src/Sync/Merkle/Sound.antt =====
-- What `Diff` of internal/sync/merkle.go reports.
use vault_drift.Common.{
  branches, ℕ, zero, suc, ◌≤◌, max, ◌≡◌, refl, ◌&&◌, ◌||◌, true, Option, none, some, String, List,
  [], ◌∷◌, All, All-append, All-split, All-map, str_eq, arith,
}
use vault_drift.Common.Dict.{Dict, lookup}
use vault_drift.Common.Entries.{All-insert, All-lookup}
use vault_drift.Common.Names.{mem, mem-All}
use vault_drift.Sync.Merkle.{
  Node, Nodes, node, nil, cons, info_of, collect_paths, collect_all, child_map, compare_child,
  go_on, compare_children, note_deleted, find_deleted, then_deleted, diff_nodes, DiffResult,
  empty_diff, diff,
}

unfoldable mutual
  pub depth : Node → ℕ
  depth (node info children) = suc (depth_all children)

  pub depth_all : Nodes → ℕ
  depth_all nil = 0
  depth_all (cons n ns) = max (depth n) (depth_all ns)

-- All paths under the node are among these.
abbrev IsWithin : List String → Node → Type 0
IsWithin paths n = All (λ path. mem path paths ≡ true) (collect_paths n)

-- The same, with a bound on the depth.
abbrev IsBelow : ℕ → List String → Node → Type 0
IsBelow fuel paths n = IsWithin paths n × (depth n ≤ fuel)

-- What is reported as added is in the remote tree, and what is reported as deleted or modified in the
-- local one.
abbrev pub IsSound : List String → List String → DiffResult → Type 0
IsSound here there result =
    All (λ path. mem path there ≡ true) result.added
    × All (λ path. mem path here ≡ true) result.modified
    × All (λ path. mem path here ≡ true) result.deleted

-- There is an answer, and it is sound.
abbrev pub Gives : (DiffResult → Type 0) → Option DiffResult → Type 0
Gives P none = ⊥
Gives P (some result) = P result

-- The children of a node are within what it is within.
child_map-All :
    (fuel : ℕ) (paths : List String) (ns : Nodes) (m : Dict Node)
    → All (λ path. mem path paths ≡ true) (collect_all ns)
    → depth_all ns ≤ fuel
    → All (λ entry. IsBelow fuel paths entry.1) m
    → All (λ entry. IsBelow fuel paths entry.1) (child_map ns m)
unfolding collect_paths depth child_map
child_map-All fuel paths nil m within shallow all = all
child_map-All fuel paths (cons n ns) m within shallow all =
    let (here, later) =
      All-split (λ path. mem path paths ≡ true) (collect_paths n) (collect_all ns) within in
    child_map-All fuel paths ns _ later (omega (arith, shallow)) (
      All-insert (λ entry. IsBelow fuel paths entry.1) (info_of n).path n m
        (here, omega (arith, shallow)) all)

module _ (here_paths there_paths : List String) where
  abbrev Sound : DiffResult → Type 0
  Sound result = IsSound here_paths there_paths result

  -- What the comparison of two children must do.
  abbrev Compares : ℕ → (Node → Node → DiffResult → Option DiffResult) → Type 0
  Compares fuel diff_two =
      (here there : Node) (result : DiffResult)
      → IsWithin here_paths here
      → IsBelow fuel there_paths there
      → Sound result
      → Gives Sound (diff_two here there result)

  compare_children-Sound :
      (fuel : ℕ) (diff_two : Node → Node → DiffResult → Option DiffResult) (here there : Dict Node)
      (result : DiffResult)
      → Compares fuel diff_two
      → All (λ entry. IsWithin here_paths entry.1) here
      → All (λ entry. IsBelow fuel there_paths entry.1) there
      → Sound result
      → Gives Sound (compare_children diff_two here there result)
  unfolding compare_children
  compare_children-Sound fuel diff_two here [] result compares own below sound = sound
  compare_children-Sound fuel diff_two here ((path, n) ∷ there) result compares own below sound =
      onward (compare_child diff_two (lookup path here) n result) one (λ after still.
        compare_children-Sound fuel diff_two here there after compares own below.1 still)
    where
      child :
          (o : Option Node) → lookup path here ≡ o → Gives Sound (compare_child diff_two o n result)
      child none e = (
        All-append (λ p. mem p there_paths ≡ true) result.added (collect_paths n) sound.0 below.0.0,
        sound.1,
        sound.2,
      )
      child (some old) e =
          compares old n result (All-lookup (IsWithin here_paths) path old here own e) below.0 sound

      one : Gives Sound (compare_child diff_two (lookup path here) n result)
      one = child (lookup path here) refl

      onward :
          (answer : Option DiffResult)
          → Gives Sound answer
          → ((after : DiffResult)
              → Sound after
              → Gives Sound (compare_children diff_two here there after))
          → Gives Sound (go_on (λ after. compare_children diff_two here there after) answer)
      onward none still rest = still
      onward (some after) still rest = rest after still

  find_deleted-Sound :
      (there here : Dict Node) (result : DiffResult)
      → All (λ entry. IsWithin here_paths entry.1) here
      → Sound result
      → Sound (find_deleted there here result)
  unfolding find_deleted
  find_deleted-Sound there [] result own sound = sound
  find_deleted-Sound there ((path, n) ∷ here) result own sound =
      find_deleted-Sound there here (note_deleted (lookup path there) n result) own.1
        (noted (lookup path there))
    where
      noted : (o : Option Node) → Sound (note_deleted o n result)
      noted none = (
        sound.0,
        sound.1,
        All-append (λ p. mem p here_paths ≡ true) result.deleted (collect_paths n) sound.2 own.0,
      )
      noted (some kept) = sound

  then_deleted-Sound :
      (there here : Dict Node) (answer : Option DiffResult)
      → All (λ entry. IsWithin here_paths entry.1) here
      → Gives Sound answer
      → Gives Sound (then_deleted there here answer)
  then_deleted-Sound there here none own still = still
  then_deleted-Sound there here (some result) own sound =
      find_deleted-Sound there here result own sound

  diff_nodes-Sound :
      (fuel : ℕ) (here there : Node) (result : DiffResult)
      → IsWithin here_paths here
      → IsBelow fuel there_paths there
      → Sound result
      → Gives Sound (diff_nodes fuel here there result)
  unfolding diff_nodes collect_paths depth
  diff_nodes-Sound zero here (node b ns) result own below sound = absurd (omega (arith, below.1))
  diff_nodes-Sound (suc fuel) (node a ms) (node b ns) result own below sound =
      branches (Gives Sound) (str_eq a.hash b.hash) sound (
        branches (Gives Sound) (a.is_file && b.is_file)
          (
            sound.0,
            All-append (λ p. mem p here_paths ≡ true) result.modified (a.path ∷ []) sound.1
                (own.0, tt),
            sound.2,
          )
          (branches (Gives Sound) (a.is_file || b.is_file)
            (
              All-append (λ p. mem p there_paths ≡ true) result.added (b.path ∷ []) sound.0
                  (below.0.0, tt),
              sound.1,
              All-append (λ p. mem p here_paths ≡ true) result.deleted (a.path ∷ []) sound.2
                  (own.0, tt),
            )
            (then_deleted-Sound theirs ours _ ours_within (
              compare_children-Sound fuel (diff_nodes fuel) ours theirs result
                (λ x y r. diff_nodes-Sound fuel x y r) ours_within theirs_below sound))))
    where
      ours : Dict Node
      ours = child_map ms []

      theirs : Dict Node
      theirs = child_map ns []

      ours_within : All (λ entry. IsWithin here_paths entry.1) ours
      ours_within =
          All-map (λ entry both. both.0) ours
            (child_map-All (depth_all ms) here_paths ms [] own.1 (omega arith) tt)

      theirs_below : All (λ entry. IsBelow fuel there_paths entry.1) theirs
      theirs_below = child_map-All fuel there_paths ns [] below.0.1 (omega (arith, below.1)) tt

-- On two trees, with as much fuel as the remote one is deep, `Diff` gives an answer, in which the added
-- paths are paths of the remote tree, and the deleted and modified ones are paths of the local tree.
pub diff-IsSound :
    (fuel : ℕ) (here there : Node)
    → depth there ≤ fuel
    → Gives
        (IsSound (collect_paths here) (collect_paths there))
        (diff fuel (some here) (some there))
unfolding diff
diff-IsSound fuel here there enough =
    branches (Gives (IsSound (collect_paths here) (collect_paths there)))
      (str_eq (info_of here).hash (info_of there).hash) (tt, tt, tt)
      (diff_nodes-Sound (collect_paths here) (collect_paths there) fuel here there empty_diff
        (mem-All (collect_paths here)) (mem-All (collect_paths there), enough) (tt, tt, tt))
