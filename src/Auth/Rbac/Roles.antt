-- ===== src/Auth/Rbac/Roles.antt =====
-- What `AddRole` and `UpdateRole` of internal/auth/rbac.go keep.
use vault_drift.Common.{
  ◌≡◌, refl, sym, ap, ◌∙◌, inl, inr, String, true, none, some, List, [], arith, eq_iff,
  if◌then◌else◌, Option-cases, Bool-cases,
}
use vault_drift.Common.Dict.{lookup, insert, lookup-insert}
use vault_drift.Auth.Rbac.{Permission, Role, Rbac, add_role, update_role}

add_role-roles :
    (role : Role) (s : Rbac)
    → (add_role role s).1 ≡ elim (lookup role.name s.roles) [
      | some old ↦ s
      | none ↦ record s { roles = insert role.name role s.roles }
    ]
unfolding add_role
add_role-roles role s = elim (Option-cases (lookup role.name s.roles)) [
  | inl absent ↦ rw (absent, add_role) refl
  | inr (other, found) ↦ rw (found, add_role) refl
]

update_role-roles :
    (name : String) (permissions : List Permission) (s : Rbac)
    → (update_role name permissions s).1 ≡ elim (lookup name s.roles) [
      | none ↦ s
      | some role ↦ if role.is_system then s else record {
        roles = insert name (record role { permissions = permissions }) s.roles;
        perms = [];
      }
    ]
unfolding update_role
update_role-roles name permissions s = elim (Option-cases (lookup name s.roles)) [
  | inl absent ↦ rw (absent, update_role) refl
  | inr (role, found) ↦ elim (Bool-cases role.is_system) [
    | inl system ↦ rw (found, update_role, system) refl
    | inr other ↦ rw (found, update_role, other) refl
  ]
]

-- A role that is there keeps its entry, if it is marked as a system role.
pub add_role-keeps :
    (name : String) (old role : Role) (s : Rbac)
    → lookup name s.roles ≡ some old
    → lookup name (add_role role s).1.roles ≡ some old
add_role-keeps name old role s found = elim (Option-cases (lookup role.name s.roles)) [
  | inl absent ↦
      rw (add_role-roles role s, absent)
        (ground
          (arith, lookup-insert role.name name role s.roles, eq_iff role.name name, found, absent))
  | inr (other, e) ↦ rw (add_role-roles role s, e) found
]

pub update_role-keeps :
    (name other : String) (old : Role) (permissions : List Permission) (s : Rbac)
    → lookup name s.roles ≡ some old
    → old.is_system ≡ true
    → lookup name (update_role other permissions s).1.roles ≡ some old
update_role-keeps name other old permissions s found system =
    elim (Option-cases (lookup other s.roles)) [
      | inl absent ↦ rw (update_role-roles other permissions s, absent) found
      | inr (role, e) ↦ elim (Bool-cases role.is_system) [
        | inl kept ↦ rw (update_role-roles other permissions s, e, kept) found
        | inr own ↦
            rw (update_role-roles other permissions s, e, own)
              (ground (
                arith,
                lookup-insert other name (record role { permissions = permissions }) s.roles,
                eq_iff other name,
                found,
                e,
                own,
                system,
              ))
      ]
    ]

-- `UpdateRole` puts nothing into the cache.
pub update_role-perms :
    (name user_id : String) (permissions ps : List Permission) (s : Rbac)
    → lookup user_id (update_role name permissions s).1.perms ≡ some ps
    → lookup user_id s.perms ≡ some ps
unfolding lookup
update_role-perms name user_id permissions ps s found = elim (Option-cases (lookup name s.roles)) [
  | inl absent ↦ from (update_role-roles name permissions s ∙ rw absent refl)
  | inr (role, e) ↦ elim (Bool-cases role.is_system) [
    | inl system ↦ from (update_role-roles name permissions s ∙ rw (e, system) refl)
    | inr own ↦ absurd (emptied role (update_role-roles name permissions s ∙ rw (e, own) refl))
  ]
]
  where
    from : (update_role name permissions s).1 ≡ s → lookup user_id s.perms ≡ some ps
    from same = sym (ap (λ t. lookup user_id t.perms) same) ∙ found

    emptied :
        (role : Role)
        → (update_role name permissions s).1 ≡ record {
          roles = insert name (record role { permissions = permissions }) s.roles;
          perms = [];
        }
        → ⊥
    emptied role e =
        let none_there : none ≡ some ps = sym (ap (λ t. lookup user_id t.perms) e) ∙ found in
        absurd (cc (none_there))

pub add_role-perms : (role : Role) (s : Rbac) → (add_role role s).1.perms ≡ s.perms
add_role-perms role s = elim (Option-cases (lookup role.name s.roles)) [
  | inl absent ↦ rw (add_role-roles role s, absent) refl
  | inr (other, found) ↦ rw (add_role-roles role s, found) refl
]
