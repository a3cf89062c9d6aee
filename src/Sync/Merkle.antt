-- ===== src/Sync/Merkle.antt =====
-- The Merkle trees of internal/sync/merkle.go and their difference. A nil node is `none`. The recursion of
-- `diffNodes` goes through maps, so it has fuel here, and the answer `none` says that it was not
-- enough. A loop over a map goes through its entries in the order of the list; Go leaves that order open, and
-- so the order of the reported paths. SHA-256 with its hexadecimal form is a parameter of the hash of a directory.
pub mod Paths
pub mod Sound
pub mod Renamed
use vault_drift.Common.{
  ℕ, zero, suc, ◌+◌, max, Bool, true, false, ◌&&◌, ◌||◌, not, Option, none, some, String, List, [],
  ◌∷◌, ◌++◌, str_eq, if◌then◌else◌,
}
use vault_drift.Common.Dict.{Dict, lookup, insert}

-- `MerkleNode`, without its children.
pub record Info : Type 0 where
  pub hash : String
  pub path : String
  pub is_file : Bool
  pub size : ℕ
  pub mod_time : ℕ

-- `MerkleNode`
mutual
  pub data Node : Type 0 where
    node : Info → Nodes → Node

  pub data Nodes : Type 0 where
    nil : Nodes
    cons : Node → Nodes → Nodes

abbrev pub info_of : Node → Info
info_of (node info children) = info

abbrev pub children_of : Node → Nodes
children_of (node info children) = children

-- `collectPaths`: the paths that it appends.
unfoldable mutual
  pub collect_paths : Node → List String
  collect_paths (node info children) = info.path ∷ collect_all children

  pub collect_all : Nodes → List String
  collect_all nil = []
  collect_all (cons n ns) = collect_paths n ++ collect_all ns

abbrev pub or_node : Option Node → Option Node → Option Node
or_node (some found) rest = some found
or_node none rest = rest

-- `findNodeRecursive`
unfoldable mutual
  pub find_node_recursive : String → Node → Option Node
  find_node_recursive path (node info children) =
      let rest = find_in path children in
      if str_eq info.path path then some (node info children) else rest

  pub find_in : String → Nodes → Option Node
  find_in path nil = none
  find_in path (cons n ns) = or_node (find_node_recursive path n) (find_in path ns)

-- `FindNode`
unfoldable pub find_node : String → Option Node → Option Node
unfolding find_node_recursive
find_node path none = none
find_node path (some root) = find_node_recursive path root

-- What `computeNodeHash` writes into the digest: the hashes of the children in their order.
unfoldable pub child_hashes : Nodes → List String
child_hashes nil = []
child_hashes (cons n ns) = (info_of n).hash ∷ child_hashes ns

-- The loops of `buildNode` over the sizes and the times of the children.
unfoldable pub total_size : Nodes → ℕ
total_size nil = 0
total_size (cons n ns) = (info_of n).size + total_size ns

unfoldable pub latest_mod_time : Nodes → ℕ
latest_mod_time nil = 0
latest_mod_time (cons n ns) = max (info_of n).mod_time (latest_mod_time ns)

-- What `buildNode` makes of the sorted children of a directory.
unfoldable pub directory : (List String → String) → String → Nodes → Node
unfolding child_hashes total_size latest_mod_time
directory sha prefix children =
    node
      (record {
        hash = sha (child_hashes children);
        path = prefix;
        is_file = false;
        size = total_size children;
        mod_time = latest_mod_time children;
      })
      children

-- `DiffResult`
pub record DiffResult : Type 0 where
  pub added : List String
  pub modified : List String
  pub deleted : List String

abbrev pub empty_diff : DiffResult
empty_diff = record { added = []; modified = []; deleted = [] }

-- `localChildren` and `remoteChildren`, after their first entries.
unfoldable pub child_map : Nodes → Dict Node → Dict Node
unfolding insert
child_map nil m = m
child_map (cons n ns) m = child_map ns (insert (info_of n).path n m)

-- A round of the loop over the children of the remote node, with the local child of the path.
abbrev pub compare_child :
    (Node → Node → DiffResult → Option DiffResult)
    → Option Node
    → Node
    → DiffResult
    → Option DiffResult
compare_child diff_two none there result =
    some (record result { added = result.added ++ collect_paths there })
compare_child diff_two (some here) there result = diff_two here there result

abbrev pub go_on : (DiffResult → Option DiffResult) → Option DiffResult → Option DiffResult
go_on rest none = none
go_on rest (some result) = rest result

-- That loop, given what compares two children.
unfoldable pub compare_children :
    (Node → Node → DiffResult → Option DiffResult)
    → Dict Node
    → Dict Node
    → DiffResult
    → Option DiffResult
unfolding collect_paths
compare_children diff_two here [] result = some result
compare_children diff_two here ((path, there) ∷ rest) result =
    go_on (λ after. compare_children diff_two here rest after)
      (compare_child diff_two (lookup path here) there result)

-- A round of the loop over the children of the local node, with the remote child of the path.
abbrev pub note_deleted : Option Node → Node → DiffResult → DiffResult
note_deleted none here result = record result { deleted = result.deleted ++ collect_paths here }
note_deleted (some there) here result = result

unfoldable pub find_deleted : Dict Node → Dict Node → DiffResult → DiffResult
unfolding collect_paths
find_deleted there [] result = result
find_deleted there ((path, here) ∷ rest) result =
    find_deleted there rest (note_deleted (lookup path there) here result)

abbrev pub then_deleted : Dict Node → Dict Node → Option DiffResult → Option DiffResult
then_deleted there here none = none
then_deleted there here (some result) = some (find_deleted there here result)

-- `diffNodes`
unfoldable pub diff_nodes : ℕ → Node → Node → DiffResult → Option DiffResult
unfolding compare_children find_deleted child_map
diff_nodes zero here there result = none
diff_nodes (suc fuel) here there result =
    let a = info_of here in
    let b = info_of there in
    let here_children = child_map (children_of here) [] in
    let there_children = child_map (children_of there) [] in
    let below =
      then_deleted there_children here_children
        (compare_children (diff_nodes fuel) here_children there_children result) in
    if str_eq a.hash b.hash
    then some result
    else if a.is_file && b.is_file
    then some (record result { modified = result.modified ++ a.path ∷ [] })
    else if a.is_file || b.is_file
    then some (record result {
      deleted = result.deleted ++ a.path ∷ [];
      added = result.added ++ b.path ∷ [];
    })
    else below

-- `Diff`
unfoldable pub diff : ℕ → Option Node → Option Node → Option DiffResult
unfolding diff_nodes collect_paths
diff fuel none none = some empty_diff
diff fuel none (some there) = some (record empty_diff { added = collect_paths there })
diff fuel (some here) none = some (record empty_diff { deleted = collect_paths here })
diff fuel (some here) (some there) =
    let compared = diff_nodes fuel here there empty_diff in
    if str_eq (info_of here).hash (info_of there).hash then some empty_diff else compared
