-- ===== src/Files/Manifests.antt =====
-- The table `manifests` and the statements of internal/db/manifests.go on it. The id is the primary key;
-- the constraints are those of internal/db/schema.go: UNIQUE(file_id, version), and a file for each
-- manifest. The chunks, stored as JSON, are a list. A row leaves out the count of its chunks.
use vault_drift.Common.{
  ℕ, ◌==◌, ◌&&◌, ◌||◌, Bool, false, Option, none, some, String, List, [], ◌∷◌, str_eq, ltb,
  if◌then◌else◌,
}
use vault_drift.Common.Dict.{Dict, lookup, insert, delete}
use vault_drift.Files.{Files, is_some}

-- `Manifest`
pub record Manifest : Type 0 where
  pub file_id : String
  pub version : ℕ
  pub size_bytes : ℕ
  pub chunks : List String
  pub checksum : String
  pub device_id : String
  pub created_at : ℕ

abbrev pub Manifests : Type 0
Manifests = Dict Manifest

pub data Error : Type 0 where
  failed_to_create manifest_not_found : Error

-- `UNIQUE(file_id, version)`
unfoldable pub has_version : String → ℕ → Manifests → Bool
has_version file_id version [] = false
has_version file_id version ((id, m) ∷ t) =
    let rest = has_version file_id version t in
    (str_eq file_id m.file_id && version == m.version) || rest

-- `CreateManifest`
unfoldable pub create_manifest : String → Manifest → Files → Manifests → Option Error × Manifests
unfolding has_version
create_manifest id m files t =
    if is_some (lookup id t) || has_version m.file_id m.version t
    then (some failed_to_create, t)
    else if is_some (lookup m.file_id files)
    then (none, insert id m t)
    else (some failed_to_create, t)

-- `GetManifest`
unfoldable pub get_manifest : String → Manifests → Option Manifest
get_manifest id t = lookup id t

-- The later of two versions, `ORDER BY version DESC LIMIT 1`.
abbrev pub later : Manifest → Option Manifest → Manifest
later m none = m
later m (some other) = if ltb m.version other.version then other else m

-- `GetLatestManifest`
unfoldable pub get_latest_manifest : String → Manifests → Option Manifest
get_latest_manifest file_id [] = none
get_latest_manifest file_id ((id, m) ∷ t) =
    let rest = get_latest_manifest file_id t in
    if str_eq file_id m.file_id then some (later m rest) else rest

-- `DeleteManifest`
unfoldable pub delete_manifest : String → Manifests → Option Error × Manifests
delete_manifest id t = elim (lookup id t) [
  | none ↦ (some manifest_not_found, t)
  | some m ↦ (none, delete id t)
]
