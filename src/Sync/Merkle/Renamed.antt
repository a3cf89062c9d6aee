-- ===== src/Sync/Merkle/Renamed.antt =====
-- What the hash of a directory in internal/sync/merkle.go does not see.
use vault_drift.Common.{ℕ, ◌≡◌, refl, ap, true, some, String, List, str_eq, eq_iff}
use vault_drift.Sync.Merkle.{Nodes, child_hashes, directory, empty_diff, diff}

-- `Diff` of two directories is empty whenever their children have the same hashes in the same order,
-- whatever the paths of the children are: a file that is renamed, and stays at its place among its
-- siblings, gives no difference.
pub diff-renamed :
    (sha : List String → String) (fuel : ℕ) (prefix other : String) (here there : Nodes)
    → child_hashes here ≡ child_hashes there
    → diff fuel (some (directory sha prefix here)) (some (directory sha other there))
      ≡ some empty_diff
unfolding diff directory
diff-renamed sha fuel prefix other here there same =
    let e : str_eq (sha (child_hashes here)) (sha (child_hashes there)) ≡ true =
      (eq_iff (sha (child_hashes here)) (sha (child_hashes there))).1 (ap sha same) in
    rw e refl
