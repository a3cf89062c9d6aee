-- ===== src/Auth/Rbac/SystemRoles.antt =====
-- What holds after any calls on the engine of internal/auth/rbac.go, which may overlap, from `NewRBAC`.
use vault_drift.Common.{◌≡◌, refl, ap, ◌∙◌, String, true, Option, none, some, List, [], ◌∷◌}
use vault_drift.Common.Dict.{lookup}
use vault_drift.Auth.Rbac.{Role, Users, invalidate_user_cache, invalidate_all_cache}
use vault_drift.Auth.Rbac.Roles.{add_role-keeps, update_role-keeps}
use vault_drift.Auth.Rbac.Steps.{
  Load, Engine, Step, loading, caching, invalidating, invalidating_all, adding, updating, read_role,
  load, take_out, cache, apply, run,
}

-- The roles of an engine have this entry.
abbrev Has : String → Role → Engine → Type 0
Has name role e = lookup name e.rbac.roles ≡ some role

read_role-roles :
    (o : Option Role) (user_id : String) (e : Engine) → (read_role o user_id e).rbac ≡ e.rbac
read_role-roles none user_id e = refl
read_role-roles (some role) user_id e = refl

load-roles : (user_id : String) (o : Option String) (e : Engine) → (load user_id o e).rbac ≡ e.rbac
load-roles user_id none e = refl
load-roles user_id (some name) e = read_role-roles (lookup name e.rbac.roles) user_id e

cache-roles : (o : Option (Load × List Load)) (e : Engine) → (cache o e).rbac.roles ≡ e.rbac.roles
cache-roles none e = refl
cache-roles (some ((user_id, ps), rest)) e = refl

-- Each step keeps the entry of a system role.
apply-keeps :
    (db : Users) (step : Step) (e : Engine) (name : String) (role : Role)
    → Has name role e
    → role.is_system ≡ true
    → Has name role (apply db step e)
unfolding apply invalidate_user_cache invalidate_all_cache
apply-keeps db (loading u) e name role found system =
    ap (λ r. lookup name r.roles) (load-roles u (db u) e) ∙ found
apply-keeps db (caching i) e name role found system =
    ap (lookup name) (cache-roles (take_out i e.loads) e) ∙ found
apply-keeps db (invalidating user_id) e name role found system = found
apply-keeps db invalidating_all e name role found system = found
apply-keeps db (adding other) e name role found system = add_role-keeps name role other e.rbac found
apply-keeps db (updating other permissions) e name role found system =
    update_role-keeps name other role permissions e.rbac found system

-- No call removes or changes a system role: after any steps of calls that may overlap, from any engine, a
-- role that was there and marked as a system role is there unchanged.
pub run-keeps :
    (steps : List (Users × Step)) (e : Engine) (name : String) (role : Role)
    → lookup name e.rbac.roles ≡ some role
    → role.is_system ≡ true
    → lookup name (run steps e).rbac.roles ≡ some role
unfolding run
run-keeps [] e name role found system = found
run-keeps ((db, step) ∷ steps) e name role found system =
    run-keeps steps (apply db step e) name role (apply-keeps db step e name role found system)
      system
