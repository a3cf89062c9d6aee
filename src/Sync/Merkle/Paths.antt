-- ===== src/Sync/Merkle/Paths.antt =====
-- `FindNode` of internal/sync/merkle.go finds the paths that `collectPaths` gives.
use vault_drift.Common.{
  ◌≡◌, refl, ◌∙◌, inl, inr, true, false, Option, none, some, String, List, ◌∷◌, ◌++◌, str_eq,
  eq_iff, arith, Bool-cases,
}
use vault_drift.Common.Names.{mem, mem-append}
use vault_drift.Sync.Merkle.{
  Node, Nodes, node, nil, cons, info_of, collect_paths, collect_all, or_node, find_node_recursive,
  find_in, find_node,
}

-- What a search for a path among some paths gives.
abbrev pub IsFound : String → List String → Option Node → Type 0
IsFound path paths none = mem path paths ≡ false
IsFound path paths (some found) = ((info_of found).path ≡ path) × (mem path paths ≡ true)

or_node-IsFound :
    (path : String) (front back : List String) (first second : Option Node)
    → IsFound path front first
    → IsFound path back second
    → IsFound path (front ++ back) (or_node first second)
or_node-IsFound path front back (some found) second (here, there) later =
    (here, mem-append path front back ∙ rw there refl)
or_node-IsFound path front back none none absent later =
    mem-append path front back ∙ rw (absent, later) refl
or_node-IsFound path front back none (some found) absent (here, there) =
    (here, mem-append path front back ∙ rw (absent, there) refl)

cons-IsFound :
    (path own : String) (paths : List String) (answer : Option Node)
    → str_eq own path ≡ false
    → IsFound path paths answer
    → IsFound path (own ∷ paths) answer
unfolding mem
cons-IsFound path own paths none differ absent = rw (differ, absent) refl
cons-IsFound path own paths (some found) differ (here, there) = (here, rw (differ, there) refl)

mutual
  unfolding find_node_recursive collect_paths mem

  find_node_recursive-IsFound :
      (path : String) (n : Node) → IsFound path (collect_paths n) (find_node_recursive path n)
  find_node_recursive-IsFound path (node info children) =
      elim (Bool-cases (str_eq info.path path)) [
        | inl same ↦
            let there : mem path (collect_paths (node info children)) ≡ true =
              ground (arith, same) in
            rw same ((eq_iff info.path path).0 same, there)
        | inr differ ↦ rw differ (
            cons-IsFound path info.path (collect_all children) (find_in path children) differ
              (find_in-IsFound path children))
      ]

  find_in-IsFound : (path : String) (ns : Nodes) → IsFound path (collect_all ns) (find_in path ns)
  find_in-IsFound path nil = refl
  find_in-IsFound path (cons n ns) =
      or_node-IsFound path (collect_paths n) (collect_all ns) (find_node_recursive path n)
        (find_in path ns) (find_node_recursive-IsFound path n) (find_in-IsFound path ns)

-- `FindNode` finds a node just when the path is one that `collectPaths` gives for the root, and then a
-- node with this path.
pub find_node-IsFound :
    (path : String) (root : Node) → IsFound path (collect_paths root) (find_node path (some root))
unfolding find_node
find_node-IsFound path root = find_node_recursive-IsFound path root
