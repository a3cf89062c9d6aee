-- ===== src/Auth/Rbac/Decision.antt =====
-- The cache of permissions is not seen in an answer: `Authorize` decides by the user's role.
use vault_drift.Common.{
  ◌≡◌, refl, sym, ap, ◌∙◌, String, ◌||◌, Option, none, some, List, arith, str_eq, eq_iff,
  if◌then◌else◌, Option-cases, Bool-cases, inl, inr, ◌⊎◌,
}
use vault_drift.Common.Dict.{lookup, insert, lookup-insert}
use vault_drift.Auth.Rbac.{
  Permission, Role, Rbac, Error, invalid_resource, user_not_found, role_not_found, Permissions,
  granted, refused, Users, load_role, load_user, or_load, get_user_permissions, default_scope,
  decide, authorize,
}

-- What the users' table and the roles say, with no cache.
abbrev pub of_role : String → Option Role → Permissions
of_role name none = refused (role_not_found name)
of_role name (some role) = granted role.permissions

abbrev pub of_user : Option String → Rbac → Permissions
of_user none s = refused user_not_found
of_user (some name) s = of_role name (lookup name s.roles)

-- Each cached entry is what the users' table and the roles say now.
abbrev pub IsCoherent : Users → Rbac → Type 0
IsCoherent db s =
    (user_id : String) (ps : List Permission)
    → lookup user_id s.perms ≡ some ps
    → of_user (db user_id) s ≡ granted ps

-- The decision with no cache.
abbrev pub decision : Users → String → String → String → String → Rbac → Option Error
decision db user_id resource action scope s =
    if str_eq resource "" || str_eq action ""
    then some invalid_resource
    else decide (of_user (db user_id) s) resource action (default_scope scope)

load_user-loads :
    (user_id : String) (o : Option String) (s : Rbac)
    → ((load_user user_id o s).0 ≡ of_user o s) × ((load_user user_id o s).1.roles ≡ s.roles)
unfolding load_user
load_user-loads user_id none s = (refl, refl)
load_user-loads user_id (some name) s = elim (Option-cases (lookup name s.roles)) [
  | inl absent ↦ (rw (absent, load_role), rw (absent, load_role))
  | inr (role, found) ↦ (rw (found, load_role), rw (found, load_role))
]

load_role-perms :
    (user_id other name : String) (o : Option Role) (s : Rbac) (ps : List Permission)
    → lookup other (load_role user_id o name s).1.perms ≡ some ps
    → (lookup other s.perms ≡ some ps) ⊎ ((user_id ≡ other) × (of_role name o ≡ granted ps))
unfolding load_role
load_role-perms u other name none s ps h = inl h
load_role-perms u other name (some role) s ps h = elim (Bool-cases (str_eq u other)) [
  | inl e ↦
      let q : lookup other (insert u role.permissions s.perms)
          ≡ (if str_eq u other then some role.permissions else lookup other s.perms) =
        lookup-insert u other role.permissions s.perms in
      inr ((eq_iff u other).0 e, ground (arith, q, e, h))
  | inr e ↦
      let q : lookup other (insert u role.permissions s.perms)
          ≡ (if str_eq u other then some role.permissions else lookup other s.perms) =
        lookup-insert u other role.permissions s.perms in
      inl (ground (arith, q, e, h))
]

-- A role loaded for a user enters the cache, and nothing else does.
load_user-perms :
    (user_id other : String) (o : Option String) (s : Rbac) (ps : List Permission)
    → lookup other (load_user user_id o s).1.perms ≡ some ps
    → (lookup other s.perms ≡ some ps) ⊎ ((user_id ≡ other) × (of_user o s ≡ granted ps))
unfolding load_user
load_user-perms u other none s ps h = inl h
load_user-perms u other (some name) s ps h =
    load_role-perms u other name (lookup name s.roles) s ps h

of_user-roles : (o : Option String) (s t : Rbac) → t.roles ≡ s.roles → of_user o t ≡ of_user o s
of_user-roles none s t h = refl
of_user-roles (some name) s t h = rw h

load_user-IsCoherent :
    (db : Users) (user_id : String) (s : Rbac)
    → IsCoherent db s
    → IsCoherent db (load_user user_id (db user_id) s).1
load_user-IsCoherent db u s coherent other ps h =
    of_user-roles (db other) s (load_user u (db u) s).1 (load_user-loads u (db u) s).1
    ∙ elim (load_user-perms u other (db u) s ps h) [
      | inl old ↦ coherent other ps old
      | inr (same, loaded) ↦ rw (← same) loaded
    ]

or_load-loads :
    (db : Users) (user_id : String) (o : Option (List Permission)) (s : Rbac)
    → lookup user_id s.perms ≡ o
    → IsCoherent db s
    → ((or_load o (load_user user_id (db user_id) s) s).0 ≡ of_user (db user_id) s)
      × ((or_load o (load_user user_id (db user_id) s) s).1.roles ≡ s.roles)
      × IsCoherent db (or_load o (load_user user_id (db user_id) s) s).1
or_load-loads db u (some ps) s hit coherent = (sym (coherent u ps hit), refl, coherent)
or_load-loads db u none s miss coherent =
    let (perms, roles) = load_user-loads u (db u) s in
    (perms, roles, load_user-IsCoherent db u s coherent)

-- `Authorize` answers by the user's role and leaves the roles and the coherence as they are.
-- From a coherent engine, for every user and request, the answer of `authorize` is that of
-- `decision`, which reads no cache; the roles are unchanged, and the engine is coherent again.
pub authorize-decides :
    (db : Users) (user_id resource action scope : String) (s : Rbac)
    → IsCoherent db s
    → ((authorize db user_id resource action scope s).0
        ≡ decision db user_id resource action scope s)
      × ((authorize db user_id resource action scope s).1.roles ≡ s.roles)
      × IsCoherent db (authorize db user_id resource action scope s).1
unfolding authorize get_user_permissions
authorize-decides db u resource action scope s coherent =
    let (perms, roles, kept) = or_load-loads db u (lookup u s.perms) s refl coherent in
    elim (Bool-cases (str_eq resource "" || str_eq action "")) [
      | inl e ↦ rw e (refl, refl, coherent)
      | inr e ↦ rw e (ap (λ ps. decide ps resource action (default_scope scope)) perms, roles, kept)
    ]
