-- ===== src/Chunk/Index.antt =====
-- The in-memory index of known chunks, `DedupIndex` of internal/chunk/chunker.go. Each method holds
-- the mutex for its whole body, so goroutines run them one after the other, in any order.
use vault_drift.Common.{
  Bool, true, false, ◌≡◌, refl, ap, ◌∙◌, String, List, [], ◌∷◌, Option, none, some, arith, str_eq,
  if◌then◌else◌,
}
use vault_drift.Common.Dict.{Dict, lookup, insert, delete, lookup-insert, lookup-delete}

abbrev pub DedupIndex : Type 0
DedupIndex = Dict (Unit {0})

-- `NewDedupIndex`
abbrev pub new_dedup_index : DedupIndex
new_dedup_index = []

-- `Add`
unfoldable pub add : String → DedupIndex → DedupIndex
add hash d = insert hash tt d

abbrev pub present : Option (Unit {0}) → Bool
present none = false
present (some u) = true

-- `Exists`
unfoldable pub exists : String → DedupIndex → Bool
exists hash d = present (lookup hash d)

-- `Remove`
unfoldable pub remove : String → DedupIndex → DedupIndex
remove hash d = delete hash d

pub data Op : Type 0 where
  adding removing : String → Op

unfoldable pub apply : Op → DedupIndex → DedupIndex
unfolding add remove
apply (adding hash) d = add hash d
apply (removing hash) d = remove hash d

unfoldable pub run : List Op → DedupIndex → DedupIndex
unfolding apply
run [] d = d
run (op ∷ ops) d = run ops (apply op d)

-- Whether the last operation on a hash added it; `before` where none is on it.
abbrev pub last_added : String → List Op → Bool → Bool
last_added hash [] before = before
last_added hash (adding other ∷ ops) before =
    last_added hash ops (if str_eq other hash then true else before)
last_added hash (removing other ∷ ops) before =
    last_added hash ops (if str_eq other hash then false else before)

exists-apply :
    (hash : String) (op : Op) (d : DedupIndex)
    → exists hash (apply op d) ≡ last_added hash (op ∷ []) (exists hash d)
unfolding exists apply add remove
exists-apply hash (adding other) d = ground (arith, lookup-insert other hash tt d)
exists-apply hash (removing other) d = ground (arith, lookup-delete other hash d)

last_added-step :
    (hash : String) (op : Op) (ops : List Op) (before : Bool)
    → last_added hash ops (last_added hash (op ∷ []) before) ≡ last_added hash (op ∷ ops) before
last_added-step hash (adding other) ops before = refl
last_added-step hash (removing other) ops before = refl

-- After any operations, in any order, the index has a hash exactly when the last operation on it
-- was an `Add`, or there was none and it had the hash before.
pub exists-run :
    (hash : String) (ops : List Op) (d : DedupIndex)
    → exists hash (run ops d) ≡ last_added hash ops (exists hash d)
unfolding run
exists-run hash [] d = refl
exists-run hash (op ∷ ops) d =
    exists-run hash ops (apply op d)
    ∙ ap (last_added hash ops) (exists-apply hash op d)
    ∙ last_added-step hash op ops (exists hash d)
