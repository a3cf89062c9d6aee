-- ===== src/Auth/Rbac.antt =====
-- Role-based access control (internal/auth/rbac.go): permissions, roles, the engine with its two
-- maps, and its operations. The users' table is a parameter: `db id` is the role that
-- `GetUserByID` finds for an id, `none` where it fails. A role is kept by value: `AddRole` keeps
-- the caller's pointer, and a caller that goes on writing through it is not modelled.
pub mod Decision
pub mod Roles
pub mod Steps
pub mod SystemRoles
pub mod Guest
use vault_drift.Common.{
  ℕ, String, Bool, true, false, not, ◌&&◌, ◌||◌, Option, none, some, List, [], ◌∷◌, leb, str_eq,
  if◌then◌else◌,
}
use vault_drift.Common.Dict.{Dict, lookup, insert, delete}

-- `Permission`
pub record Permission : Type 0 where
  pub resource : String
  pub action : String
  pub scope : String

-- `scopeLevels[scope]`: a key that the map lacks reads as 0.
unfoldable pub scope_level : String → ℕ
scope_level scope =
    if str_eq scope "own"
    then 1
    else if str_eq scope "group"
    then 2
    else if str_eq scope "all"
    then 3
    else 0

-- `Matches`
unfoldable pub matches : Permission → String → String → String → Bool
unfolding scope_level
matches p resource action scope =
    if not (str_eq p.resource resource)
    then false
    else if not (str_eq p.action action) && not (str_eq p.action "manage")
    then false
    else leb (scope_level scope) (scope_level p.scope)

-- `Role`
pub record Role : Type 0 where
  pub id : String
  pub name : String
  pub description : String
  pub is_system : Bool
  pub permissions : List Permission

-- `RBAC`: the roles by name, and the cached permissions by user id.
pub record Rbac : Type 0 where
  pub roles : Dict Role
  pub perms : Dict (List Permission)

abbrev pub grant : String → String → String → Permission
grant resource action scope = record { resource = resource; action = action; scope = scope }

abbrev pub admin_role : Role
admin_role = record {
  id = "role_admin";
  name = "admin";
  description = "Full system access";
  is_system = true;
  permissions =
      grant "file" "manage" "all"
      ∷ grant "folder" "manage" "all"
      ∷ grant "share" "manage" "all"
      ∷ grant "user" "manage" "all"
      ∷ grant "system" "manage" "all"
      ∷ [];
}

abbrev pub user_role : Role
user_role = record {
  id = "role_user";
  name = "user";
  description = "Standard user access";
  is_system = true;
  permissions =
      grant "file" "read" "group"
      ∷ grant "file" "write" "own"
      ∷ grant "file" "delete" "own"
      ∷ grant "folder" "read" "group"
      ∷ grant "folder" "write" "own"
      ∷ grant "folder" "delete" "own"
      ∷ grant "share" "read" "group"
      ∷ grant "share" "write" "own"
      ∷ grant "share" "delete" "own"
      ∷ grant "user" "read" "own"
      ∷ grant "user" "write" "own"
      ∷ [];
}

abbrev pub guest_role : Role
guest_role = record {
  id = "role_guest";
  name = "guest";
  description = "Limited read-only access";
  is_system = true;
  permissions = grant "file" "read" "group" ∷ grant "folder" "read" "group" ∷ [];
}

-- `NewRBAC` with `seedDefaultRoles`.
unfoldable pub new_rbac : Rbac
new_rbac = record {
  roles = insert "guest" guest_role (insert "user" user_role (insert "admin" admin_role []));
  perms = [];
}

-- `GetRole`
unfoldable pub get_role : String → Rbac → Option Role
get_role name s = lookup name s.roles

pub data Error : Type 0 where
  permission_denied invalid_resource : Error
  user_not_found : Error
  role_not_found : String → Error
  role_already_exists : String → Error
  cannot_modify_system_role : String → Error

pub data Permissions : Type 0 where
  granted : List Permission → Permissions
  refused : Error → Permissions

abbrev pub Users : Type 0
Users = String → Option String

-- The part of `getUserPermissions` behind the lookup of the user's role.
unfoldable pub load_role : String → Option Role → String → Rbac → Permissions × Rbac
load_role user_id none name s = (refused (role_not_found name), s)
load_role user_id (some role) name s =
    (granted role.permissions, record s { perms = insert user_id role.permissions s.perms })

unfoldable pub load_user : String → Option String → Rbac → Permissions × Rbac
unfolding load_role
load_user user_id none s = (refused user_not_found, s)
load_user user_id (some name) s = load_role user_id (lookup name s.roles) name s

abbrev pub or_load : Option (List Permission) → Permissions × Rbac → Rbac → Permissions × Rbac
or_load (some cached) loaded s = (granted cached, s)
or_load none loaded s = loaded

-- `getUserPermissions`, and `ListPermissions`, which only calls it.
unfoldable pub get_user_permissions : Users → String → Rbac → Permissions × Rbac
unfolding load_user
get_user_permissions db user_id s =
    let loaded = load_user user_id (db user_id) s in or_load (lookup user_id s.perms) loaded s

-- The loop of `Authorize`.
unfoldable pub any_match : List Permission → String → String → String → Bool
unfolding matches
any_match [] resource action scope = false
any_match (p ∷ ps) resource action scope =
    matches p resource action scope || any_match ps resource action scope

abbrev pub default_scope : String → String
default_scope scope = if str_eq scope "" then "own" else scope

abbrev pub decide : Permissions → String → String → String → Option Error
decide (refused e) resource action scope = some e
decide (granted ps) resource action scope =
    if any_match ps resource action scope then none else some permission_denied

-- `Authorize`, while no other call comes between its parts: the error, `none` for nil, and the engine after it.
unfoldable pub authorize : Users → String → String → String → String → Rbac → Option Error × Rbac
unfolding get_user_permissions any_match
authorize db user_id resource action scope s =
    let (ps, t) = get_user_permissions db user_id s in
    if str_eq resource "" || str_eq action ""
    then (some invalid_resource, s)
    else (decide ps resource action (default_scope scope), t)

-- `InvalidateUserCache`
unfoldable pub invalidate_user_cache : String → Rbac → Rbac
invalidate_user_cache user_id s = record s { perms = delete user_id s.perms }

-- `InvalidateAllCache`
unfoldable pub invalidate_all_cache : Rbac → Rbac
invalidate_all_cache s = record s { perms = [] }

-- `AddRole`
unfoldable pub add_role : Role → Rbac → Option Error × Rbac
add_role role s = elim (lookup role.name s.roles) [
  | some old ↦ (some (role_already_exists role.name), s)
  | none ↦ (none, record s { roles = insert role.name role s.roles })
]

-- `UpdateRole`
unfoldable pub update_role : String → List Permission → Rbac → Option Error × Rbac
update_role name permissions s = elim (lookup name s.roles) [
  | none ↦ (some (role_not_found name), s)
  | some role ↦ if role.is_system then (some (cannot_modify_system_role name), s) else (
    none,
    record { roles = insert name (record role { permissions = permissions }) s.roles; perms = [] },
  )
]
