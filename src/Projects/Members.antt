-- ===== src/Projects/Members.antt =====
-- The members of a project of src/modules/projects/projects.service.ts: who may remove one, and
-- what is left of their access.
use webhook_backend.Prelude.{
  ℕ, ◌≡◌, ◌≢◌, ◌⊎◌, inl, inr, refl, sym, ap, ◌∙◌, Bool, true, false, not, Option, some, none, List,
  [], ◌∷◌, filter, find_by_id, find_by_id-update_self, is_some, ◌==◌, ok, err, Exception, Action,
  bind-ok, bind-err, throw_if, modify, pure, ◌>>◌, arith, Bool-cases, Option-cases, if-true,
  if-false,
}
use webhook_backend.Workspaces.{WorkspaceMember, role_of}
use webhook_backend.Projects.{
  Project, Store, not_deleted, workspace_of, find_one, role_in, resolve_role, change_project,
  may_manage, pull_member, remove_member,
}
use webhook_backend.Projects.Access.{has_role, find_one-found, find_one-absent, resolve_role-found}

-- `findOne` changes nothing, and gives a project only if it is there and not deleted.
abbrev Finds : (id user : ℕ) → Bool → Store → Type 0
Finds id user is_super s =
    ((e : Exception) × (find_one id user is_super s ≡ (err e, s)))
    ⊎ ((p : Project) × (not_deleted (find_by_id id s.projects) ≡ some p)
        × (find_one id user is_super s ≡ (ok p, s)))

find_one-cases : (id user : ℕ) (is_super : Bool) (s : Store) → Finds id user is_super s
unfolding find_one
find_one-cases id user true s = elim (Option-cases (not_deleted (find_by_id id s.projects))) [
  | inl absent ↦ inl (Exception.not_found, ground arith)
  | inr (p, found) ↦ inr (p, found, ground arith)
]
find_one-cases id user false s = elim (Option-cases (not_deleted (find_by_id id s.projects))) [
  | inl absent ↦ inl (Exception.not_found, find_one-absent id user s absent)
  | inr (p, found) ↦ elim (Bool-cases (has_role p user s.workspaces)) [
    | inl may ↦ inr (
      p,
      found,
      find_one-found id user s found
          ∙ ap (λ b. (throw_if (not b) Exception.forbidden >> pure p) s) may,
    )
    | inr may_not ↦ inl (
      Exception.forbidden,
      find_one-found id user s found
          ∙ ap (λ b. (throw_if (not b) Exception.forbidden >> pure p) s) may_not,
    )
  ]
]

-- `removeMember` throws and changes nothing, or it removes `target`, who is not the project's owner,
-- for its owner, an owner or admin among its members, or a super admin, and changes nothing else.
pub remove_member_allowed :
    (id user target : ℕ) (is_super : Bool) (s : Store)
    → ((e : Exception) × (remove_member id user target is_super s ≡ (err e, s)))
      ⊎ ((p : Project) × (not_deleted (find_by_id id s.projects) ≡ some p)
          × (may_manage is_super user p ≡ true)
          × (target ≢ p.owner_id)
          × (remove_member id user target is_super s
              ≡ (ok tt, change_project id (pull_member target) s)))
unfolding remove_member
remove_member_allowed id user target is_super s = elim (find_one-cases id user is_super s) [
  | inl (e, throws) ↦ inl (e, bind-err (find_one id user is_super) rest throws)
  | inr (p, found, opens) ↦
      let next = bind-ok (find_one id user is_super) rest opens in
      elim (Bool-cases (may_manage is_super user p)) [
        | inr may_not ↦ inl (
          Exception.forbidden,
          next ∙ ap (λ b. (throw_if (not b) Exception.forbidden >> remove p) s) may_not,
        )
        | inl may ↦ elim (Bool-cases (target == p.owner_id)) [
          | inl is_owner ↦ inl (
            Exception.forbidden,
            next
                ∙ ap (λ b. (throw_if (not b) Exception.forbidden >> remove p) s) may
                ∙ ap
                    (λ b.
                      (throw_if b Exception.forbidden
                          >> modify (change_project id (pull_member target)))
                        s)
                    is_owner,
          )
          | inr other ↦ inr (
            p,
            found,
            may,
            ground (arith, other),
            next
                ∙ ap (λ b. (throw_if (not b) Exception.forbidden >> remove p) s) may
                ∙ ap
                    (λ b.
                      (throw_if b Exception.forbidden
                          >> modify (change_project id (pull_member target)))
                        s)
                    other,
          )
        ]
      ]
]
  where
    remove : Project → Action Store (Unit {0})
    remove p =
        throw_if (target == p.owner_id) Exception.forbidden
        >> modify (change_project id (pull_member target))

    rest : Project → Action Store (Unit {0})
    rest p = throw_if (not (may_manage is_super user p)) Exception.forbidden >> remove p

role_of-pulled :
    (user : ℕ) (ms : List WorkspaceMember)
    → role_of user (filter (λ m. not (m.user_id == user)) ms) ≡ none
role_of-pulled user [] = refl
role_of-pulled user (m ∷ ms) = ground (arith, role_of-pulled user ms)

owner_of : Option Project → ℕ
owner_of none = 0
owner_of (some q) = q.owner_id

-- When `removeMember` succeeds on a project, the one removed keeps only the role that the project's
-- workspace lends them, if it does.
pub remove_member_revokes :
    (id user target : ℕ) (is_super : Bool) (s : Store) {p : Project}
    → find_by_id id s.projects ≡ some p
    → (remove_member id user target is_super s).0 ≡ ok tt
    → resolve_role id target (remove_member id user target is_super s).1
      ≡ role_in target (workspace_of p s.workspaces)
unfolding owner_of
remove_member_revokes id user target is_super s {p} found done =
    elim (remove_member_allowed id user target is_super s) [
      | inl (e, throws) ↦ absurd (ground (arith, done, ap (λ r. r.0) throws))
      | inr (q, alive, may, other, removes) ↦
          let s' = change_project id (pull_member target) s in
          let pulled : find_by_id id s'.projects ≡ some (pull_member target p) =
            find_by_id-update_self id (pull_member target) s.projects found in
          ap (λ r. resolve_role id target r.1) removes
          ∙ resolve_role-found id target s'
              (ap not_deleted pulled ∙ if-false {b = is_some p.deleted_at} _ (kept alive))
          ∙ if-false {b = p.owner_id == target} _ (ground (arith, other, same alive))
          ∙ rw (role_of-pulled target p.members) refl
    ]
  where
    kept :
        {q : Project}
        → not_deleted (find_by_id id s.projects) ≡ some q
        → is_some p.deleted_at ≡ false
    kept alive = elim (Bool-cases (is_some p.deleted_at)) [
      | inr fine ↦ fine
      | inl gone ↦
          absurd (
            ground (arith, alive, ap not_deleted found ∙ if-true {b = is_some p.deleted_at} _ gone))
    ]

    same : {q : Project} → not_deleted (find_by_id id s.projects) ≡ some q → q.owner_id ≡ p.owner_id
    same alive =
        ap owner_of
          (sym alive ∙ ap not_deleted found ∙ if-false {b = is_some p.deleted_at} _ (kept alive))
