-- ===== src/Auth/Rbac/Guest.antt =====
-- What the engine of internal/auth/rbac.go answers to a guest, after any calls, which may overlap.
use vault_drift.Common.{
  ℕ, zero, suc, ◌≡◌, refl, sym, ap, ◌∙◌, ◌⊎◌, ◌↔◌, leb, String, true, false, Option, none, some,
  List, [], ◌∷◌, ◌||◌, All, All-append, arith, str_eq, eq_iff, if◌then◌else◌, Option-cases,
  Bool-cases, inl, inr,
}
use vault_drift.Common.Dict.{lookup, insert, lookup-insert, lookup-delete}
use vault_drift.Auth.Rbac.{
  Permission, Role, Rbac, granted, Users, invalid_resource, matches, scope_level, any_match,
  default_scope, decide, authorize, get_user_permissions, load_user, load_role,
  invalidate_user_cache, invalidate_all_cache, new_rbac, guest_role,
}
use vault_drift.Auth.Rbac.Roles.{
  add_role-keeps, update_role-keeps, add_role-perms, update_role-perms,
}
use vault_drift.Auth.Rbac.Steps.{
  Load, Engine, Step, loading, caching, invalidating, invalidating_all, adding, updating, read_role,
  load, behind, take_out, cache, apply, run,
}

-- A load for a guest, if it is for this user.
abbrev IsGuestLoad : String → Load → Type 0
IsGuestLoad user_id entry = entry.0 ≡ user_id → entry.1 ≡ guest_role.permissions

-- What is cached and under way for a guest.
abbrev IsGuest : String → Engine → Type 0
IsGuest user_id e =
    (lookup "guest" e.rbac.roles ≡ some guest_role)
    × ((ps : List Permission) → lookup user_id e.rbac.perms ≡ some ps → ps ≡ guest_role.permissions)
    × All (IsGuestLoad user_id) e.loads

abbrev Chosen : (Load → Type 0) → Option (Load × List Load) → Type 0
Chosen P none = Unit
Chosen P (some (chosen, rest)) = P chosen × All P rest

behind-Chosen :
    (P : Load → Type 0) (first : Load) (o : Option (Load × List Load))
    → P first
    → Chosen P o
    → Chosen P (behind first o)
behind-Chosen P first none here there = tt
behind-Chosen P first (some (chosen, rest)) here there = (there.0, (here, there.1))

take_out-Chosen :
    (P : Load → Type 0) (i : ℕ) (loads : List Load) → All P loads → Chosen P (take_out i loads)
unfolding take_out
take_out-Chosen P i [] all = tt
take_out-Chosen P zero (first ∷ loads) all = all
take_out-Chosen P (suc i) (first ∷ loads) all =
    behind-Chosen P first (take_out i loads) all.0 (take_out-Chosen P i loads all.1)

cache-IsGuest :
    (user_id : String) (o : Option (Load × List Load)) (e : Engine)
    → Chosen (IsGuestLoad user_id) o
    → IsGuest user_id e
    → IsGuest user_id (cache o e)
cache-IsGuest user_id none e chosen guest = guest
cache-IsGuest user_id (some ((other, ls), rest)) e chosen guest =
    (guest.0, λ ps found. written ps found (Bool-cases (str_eq other user_id)), chosen.1)
  where
    written :
        (ps : List Permission)
        → lookup user_id (insert other ls e.rbac.perms) ≡ some ps
        → (str_eq other user_id ≡ true) ⊎ (str_eq other user_id ≡ false)
        → ps ≡ guest_role.permissions
    written ps found (inl same) =
        let own : some ls ≡ some ps =
          sym (lookup-insert other user_id ls e.rbac.perms ∙ rw same refl) ∙ found in
        let it : ls ≡ guest_role.permissions = chosen.0 ((eq_iff other user_id).0 same) in
        cc (own, it)
    written ps found (inr differ) =
        guest.1 ps (sym (lookup-insert other user_id ls e.rbac.perms ∙ rw differ refl) ∙ found)

load-IsGuest :
    (user_id other : String) (o : Option String) (e : Engine)
    → (other ≡ user_id → o ≡ some "guest")
    → IsGuest user_id e
    → IsGuest user_id (load other o e)
load-IsGuest user_id other none e own guest = guest
load-IsGuest user_id other (some name) e own guest = read (lookup name e.rbac.roles) refl
  where
    read : (r : Option Role) → lookup name e.rbac.roles ≡ r → IsGuest user_id (read_role r other e)
    read none absent = guest
    read (some role) found = (
      guest.0,
      guest.1,
      All-append (IsGuestLoad user_id) e.loads ((other, role.permissions) ∷ []) guest.2 (
        (λ same.
            let named : some name ≡ some "guest" = own same in
            let it : name ≡ "guest" = cc (named) in
            let both : some role ≡ some guest_role =
              sym found ∙ ap (λ key. lookup key e.rbac.roles) it ∙ guest.0 in
            cc (both)),
        tt,
      ),
    )

-- Each step keeps what holds of a guest.
apply-IsGuest :
    (db : Users) (step : Step) (e : Engine) (user_id : String)
    → db user_id ≡ some "guest"
    → IsGuest user_id e
    → IsGuest user_id (apply db step e)
unfolding apply invalidate_user_cache invalidate_all_cache lookup
apply-IsGuest db (loading u) e user_id named guest =
    load-IsGuest user_id u (db u) e (λ same. ap db same ∙ named) guest
apply-IsGuest db (caching i) e user_id named guest =
    cache-IsGuest user_id (take_out i e.loads) e
      (take_out-Chosen (IsGuestLoad user_id) i e.loads guest.2) guest
apply-IsGuest db (invalidating u) e user_id named guest =
    (guest.0, λ ps found. guest.1 ps (kept ps found (Bool-cases (str_eq u user_id))), guest.2)
  where
    kept :
        (ps : List Permission)
        → lookup user_id (invalidate_user_cache u e.rbac).perms ≡ some ps
        → (str_eq u user_id ≡ true) ⊎ (str_eq u user_id ≡ false)
        → lookup user_id e.rbac.perms ≡ some ps
    kept ps found b =
        unfold invalidate_user_cache in ground (arith, lookup-delete u user_id e.rbac.perms, found)
apply-IsGuest db invalidating_all e user_id named guest =
    (guest.0, (λ ps found. absurd (cc)), guest.2)
apply-IsGuest db (adding role) e user_id named guest = (
  add_role-keeps "guest" guest_role role e.rbac guest.0,
  λ ps found. guest.1 ps (sym (ap (lookup user_id) (add_role-perms role e.rbac)) ∙ found),
  guest.2,
)
apply-IsGuest db (updating name permissions) e user_id named guest = (
  update_role-keeps "guest" name guest_role permissions e.rbac guest.0 refl,
  λ ps found. guest.1 ps (update_role-perms name user_id permissions ps e.rbac found),
  guest.2,
)

-- The users' tables of all steps give the user the role.
abbrev pub AlwaysGuest : String → List (Users × Step) → Type 0
AlwaysGuest user_id steps = All (λ step. step.0 user_id ≡ some "guest") steps

run-IsGuest :
    (steps : List (Users × Step)) (e : Engine) (user_id : String)
    → AlwaysGuest user_id steps
    → IsGuest user_id e
    → IsGuest user_id (run steps e)
unfolding run
run-IsGuest [] e user_id named guest = guest
run-IsGuest ((db, step) ∷ steps) e user_id named guest =
    run-IsGuest steps (apply db step e) user_id named.1
      (apply-IsGuest db step e user_id named.0 guest)

abbrev pub IsReading : String → String → String → Type 0
IsReading resource action scope =
    ((resource ≡ "file") ⊎ (resource ≡ "folder"))
    × (action ≡ "read")
    × (leb (scope_level (default_scope scope)) 2 ≡ true)

group_level : scope_level "group" ≡ 2
unfolding scope_level
group_level = refl

guest_decision :
    (resource action scope : String)
    → ((if str_eq resource "" || str_eq action ""
          then some invalid_resource
          else decide (granted guest_role.permissions) resource action (default_scope scope))
        ≡ none)
      ↔ IsReading resource action scope
unfolding any_match matches
guest_decision resource action scope = ground (
  arith,
  eq_iff resource "",
  eq_iff action "",
  eq_iff "file" resource,
  eq_iff "folder" resource,
  eq_iff "read" action,
  eq_iff "read" "",
  eq_iff "file" "",
  eq_iff "folder" "",
  group_level,
)

-- The engine of `NewRBAC`, with no call under way.
abbrev pub new_engine : Engine
new_engine = record { rbac = new_rbac; loads = [] }

-- The permissions that a call gets for a guest.
guest_permissions :
    (db : Users) (user_id : String) (e : Engine)
    → db user_id ≡ some "guest"
    → IsGuest user_id e
    → (get_user_permissions db user_id e.rbac).0 ≡ granted guest_role.permissions
unfolding get_user_permissions load_user load_role
guest_permissions db user_id e named guest = elim (Option-cases (lookup user_id e.rbac.perms)) [
  | inl absent ↦ rw (absent, named, guest.0) refl
  | inr (ps, found) ↦ rw found (ap granted (guest.1 ps found))
]

authorize-answer :
    (db : Users) (user_id resource action scope : String) (s : Rbac)
    → (authorize db user_id resource action scope s).0 ≡ (
        if str_eq resource "" || str_eq action ""
        then some invalid_resource
        else decide (get_user_permissions db user_id s).0 resource action (default_scope scope))
unfolding authorize
authorize-answer db user_id resource action scope s =
    elim (Bool-cases (str_eq resource "" || str_eq action "")) [
      | inl bad ↦ rw bad refl
      | inr fine ↦ rw fine refl
    ]

-- What a guest may do: for every sequence of steps of calls that may overlap, from `NewRBAC`, and a user to whom the
-- users' table gives the role "guest" at every step and at the call, `authorize` answers nil just when the
-- resource is "file" or "folder", the action is "read", and the scope asked for has level 2 at most. A
-- user who had another role before may have its permissions in the cache, and is not meant.
pub authorize-guest :
    (db : Users) (steps : List (Users × Step)) (user_id resource action scope : String)
    → AlwaysGuest user_id steps
    → db user_id ≡ some "guest"
    → ((authorize db user_id resource action scope (run steps new_engine).rbac).0 ≡ none)
      ↔ IsReading resource action scope
unfolding new_rbac lookup insert
authorize-guest db steps u resource action scope always named =
    let guest = run-IsGuest steps new_engine u always (refl, (λ ps found. absurd (cc)), tt) in
    let given = guest_permissions db u (run steps new_engine) named guest in
    rw (authorize-answer db u resource action scope (run steps new_engine).rbac, given)
      (guest_decision resource action scope)
