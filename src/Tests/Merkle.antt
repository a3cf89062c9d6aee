-- ===== src/Tests/Merkle.antt =====
-- Runs of the difference of Merkle trees.
use vault_drift.Common.{◌≡◌, refl, true, some, String, List, [], ◌∷◌, arith}
use vault_drift.Common.Dict.{lookup, insert}
use vault_drift.Sync.Merkle.{
  Node, node, nil, cons, collect_paths, child_hashes, directory, find_node, empty_diff, diff,
}
use vault_drift.Sync.Merkle.Paths.{IsFound, find_node-IsFound}
use vault_drift.Sync.Merkle.Sound.{depth, IsSound, Gives, diff-IsSound}
use vault_drift.Sync.Merkle.Renamed.{diff-renamed}

-- A stand-in for the digest: the first hash, and the last of two.
abbrev sha : List String → String
sha [] = ""
sha (hash ∷ []) = hash
sha (hash ∷ other ∷ rest) = other

abbrev leaf : String → String → Node
leaf hash path =
    node (record { hash = hash; path = path; is_file = true; size = 1; mod_time = 1 }) nil

abbrev local : Node
local = directory sha "" (cons (leaf "h1" "a") (cons (leaf "h2" "b") nil))

abbrev remote : Node
remote = directory sha "" (cons (leaf "h3" "a") (cons (leaf "h4" "c") nil))

changed :
    diff 3 (some local) (some remote)
    ≡ some (record { added = "c" ∷ []; modified = "a" ∷ []; deleted = "b" ∷ [] })
unfolding diff lookup insert directory
changed = refl

find_node-IsFound_example : IsFound "c" (collect_paths remote) (find_node "c" (some remote))
find_node-IsFound_example = find_node-IsFound "c" remote

diff-IsSound_example :
    Gives (IsSound (collect_paths local) (collect_paths remote)) (diff 3 (some local) (some remote))
unfolding depth directory
diff-IsSound_example = diff-IsSound 3 local remote (omega arith)

diff-renamed_example :
    diff 3
      (some (directory sha "" (cons (leaf "h1" "a") nil)))
      (some (directory sha "" (cons (leaf "h1" "z") nil)))
    ≡ some empty_diff
unfolding child_hashes
diff-renamed_example =
    diff-renamed sha 3 "" "" (cons (leaf "h1" "a") nil) (cons (leaf "h1" "z") nil) refl
