-- ===== src/Auth/Rbac/Steps.antt =====
-- The calls on the engine of internal/auth/rbac.go that overlap in time. `getUserPermissions` lets go of the
-- mutex between the reading of the role and the writing of the cache, so it is two steps here, between which any
-- other steps may come. Each step has the users' table of its time.
use vault_drift.Common.{ℕ, zero, suc, String, Option, none, some, List, [], ◌∷◌, ◌++◌}
use vault_drift.Common.Dict.{lookup, insert}
use vault_drift.Auth.Rbac.{
  Permission, Role, Rbac, Users, invalidate_user_cache, invalidate_all_cache, add_role, update_role,
}

-- Permissions that a call has read for a user, and will write to the cache.
abbrev pub Load : Type 0
Load = String × List Permission

pub record Engine : Type 0 where
  pub rbac : Rbac
  pub loads : List Load

pub data Step : Type 0 where
  loading : String → Step
  caching : ℕ → Step
  invalidating : String → Step
  invalidating_all : Step
  adding : Role → Step
  updating : String → List Permission → Step

-- The permissions of a role that is there.
abbrev pub read_role : Option Role → String → Engine → Engine
read_role none user_id e = e
read_role (some role) user_id e = record e { loads = e.loads ++ (user_id, role.permissions) ∷ [] }

-- `getUserPermissions` up to the copy of the permissions, behind a miss of the cache.
abbrev pub load : String → Option String → Engine → Engine
load user_id none e = e
load user_id (some name) e = read_role (lookup name e.rbac.roles) user_id e

abbrev pub behind : Load → Option (Load × List Load) → Option (Load × List Load)
behind first none = none
behind first (some (chosen, rest)) = some (chosen, first ∷ rest)

-- A load among those under way, and the others.
unfoldable pub take_out : ℕ → List Load → Option (Load × List Load)
take_out i [] = none
take_out zero (first ∷ loads) = some (first, loads)
take_out (suc i) (first ∷ loads) = behind first (take_out i loads)

-- The end of `getUserPermissions`: `r.perms[userID] = perms`.
abbrev pub cache : Option (Load × List Load) → Engine → Engine
cache none e = e
cache (some ((user_id, ps), rest)) e = record e {
  rbac = record (e.rbac) { perms = insert user_id ps e.rbac.perms };
  loads = rest;
}

unfoldable pub apply : Users → Step → Engine → Engine
unfolding take_out invalidate_user_cache invalidate_all_cache add_role update_role
apply db (loading user_id) e = load user_id (db user_id) e
apply db (caching i) e = cache (take_out i e.loads) e
apply db (invalidating user_id) e = record e { rbac = invalidate_user_cache user_id e.rbac }
apply db invalidating_all e = record e { rbac = invalidate_all_cache e.rbac }
apply db (adding role) e = record e { rbac = (add_role role e.rbac).1 }
apply db (updating name permissions) e = record e { rbac = (update_role name permissions e.rbac).1 }

unfoldable pub run : List (Users × Step) → Engine → Engine
unfolding apply
run [] e = e
run ((db, step) ∷ steps) e = run steps (apply db step e)
