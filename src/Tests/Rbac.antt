-- ===== src/Tests/Rbac.antt =====
-- Runs of the access control.
use vault_drift.Common.{◌≡◌, refl, ◌↔◌, false, none, some, List, [], ◌∷◌, if◌then◌else◌, str_eq}
use vault_drift.Common.Dict.{lookup, insert, delete}
use vault_drift.Auth.Rbac.{Role, Users, grant, authorize, new_rbac, permission_denied, admin_role}
use vault_drift.Auth.Rbac.Decision.{IsCoherent, decision, authorize-decides}
use vault_drift.Auth.Rbac.Steps.{Step, loading, caching, adding, updating, invalidating, run}
use vault_drift.Auth.Rbac.SystemRoles.{run-keeps}
use vault_drift.Auth.Rbac.Guest.{AlwaysGuest, IsReading, new_engine, authorize-guest}

abbrev users : Users
users id = if str_eq id "u1" then some "admin" else if str_eq id "u2" then some "guest" else none

new_rbac-IsCoherent : IsCoherent users new_rbac
unfolding new_rbac lookup
new_rbac-IsCoherent = λ u ps h. absurd (cc)

abbrev at_once : Step → Users × Step
at_once step = (users, step)

-- Two calls that overlap, and a try to change the role between their parts.
abbrev steps : List (Users × Step)
steps =
    at_once (loading "u2")
    ∷ at_once (loading "u1")
    ∷ at_once (updating "guest" (grant "file" "manage" "all" ∷ []))
    ∷ at_once (caching 1)
    ∷ at_once (invalidating "u2")
    ∷ at_once (caching 0)
    ∷ []

always : AlwaysGuest "u2" steps
always = (refl, (refl, (refl, (refl, (refl, (refl, tt))))))

guest_cannot_write :
    (authorize users "u2" "file" "write" "own" (run steps new_engine).rbac).0
    ≡ some permission_denied
unfolding authorize run new_rbac lookup insert delete
guest_cannot_write = refl

-- A role that is changed between the two parts of a call leaves its old permissions in the cache.
abbrev readers : Users
readers id = some "reader"

abbrev reader : Role
reader = record {
  id = "r";
  name = "reader";
  description = "";
  is_system = false;
  permissions = grant "file" "read" "all" ∷ [];
}

abbrev overlapping : List (Users × Step)
overlapping =
    (readers, adding reader)
    ∷ (readers, loading "u3")
    ∷ (readers, updating "reader" [])
    ∷ (readers, caching 0)
    ∷ []

stale : (authorize readers "u3" "file" "read" "all" (run overlapping new_engine).rbac).0 ≡ none
unfolding authorize run new_rbac lookup insert delete
stale = refl

authorize-decides_example :
    ((authorize users "u1" "file" "write" "all" new_rbac).0
      ≡ decision users "u1" "file" "write" "all" new_rbac)
    × ((authorize users "u1" "file" "write" "all" new_rbac).1.roles ≡ new_rbac.roles)
    × IsCoherent users (authorize users "u1" "file" "write" "all" new_rbac).1
authorize-decides_example =
    authorize-decides users "u1" "file" "write" "all" new_rbac new_rbac-IsCoherent

run-keeps_example : lookup "admin" (run steps new_engine).rbac.roles ≡ some admin_role
unfolding new_rbac lookup insert
run-keeps_example = run-keeps steps new_engine "admin" admin_role refl refl

authorize-guest_example :
    ((authorize users "u2" "folder" "read" "own" (run steps new_engine).rbac).0 ≡ none)
    ↔ IsReading "folder" "read" "own"
authorize-guest_example = authorize-guest users steps "u2" "folder" "read" "own" always refl
