-- ===== src/Projects/Access.antt =====
-- Who has access to a project of src/modules/projects/projects.service.ts: `checkAccess` and
-- `resolveRole` agree, and `update` lets any member change who has it.
use webhook_backend.Prelude.{
  ℕ, ◌≡◌, ◌↔◌, inl, inr, refl, sym, ap, ◌∙◌, Bool, true, false, not, ◌||◌, Option, some, none,
  Collection, find_by_id, find_by_id-update_self, is_some, ◌==◌, ok, err, Exception, or_throw,
  bind-ok, pure, modify, throw_if, ◌>>=◌, ◌>>◌, arith, Bool-cases, Option-cases, if-true, if-false,
}
use webhook_backend.Workspaces.{MemberRole, Workspace, role_of, is_member}
use webhook_backend.Projects.{
  Project, Store, not_deleted, workspace_of, is_member_of, check_access, find_one, role_in,
  role_in_project, resolve_role, UpdateDto, apply_updates, change_project, update,
}

-- Some role.
abbrev pub HasRole : ℕ → ℕ → Store → Type 0
HasRole id user s = (r : MemberRole) × (resolve_role id user s ≡ some r)

abbrev pub has_role : Project → ℕ → Collection Workspace → Bool
has_role p user workspaces =
    p.owner_id == user || is_member user p.members || is_member_of user (workspace_of p workspaces)

role_in-is_some : (user : ℕ) (w : Option Workspace) → is_some (role_in user w) ≡ is_member_of user w
role_in-is_some user none = refl
role_in-is_some user (some w) = refl

role_in_project-has_role :
    (user : ℕ) (p : Project) (workspaces : Collection Workspace)
    → is_some (role_in_project user p workspaces) ≡ has_role p user workspaces
role_in_project-has_role user p workspaces = elim (Bool-cases (p.owner_id == user)) [
  | inl mine ↦ ground (arith, mine)
  | inr other ↦ elim (Option-cases (role_of user p.members)) [
    | inr (r, listed) ↦ ground (arith, other, listed)
    | inl absent ↦ ground (arith, other, absent, role_in-is_some user (workspace_of p workspaces))
  ]
]

some-found : {A : Type 0} (o : Option A) → is_some o ≡ true → (a : A) × (o ≡ some a)
some-found none h = absurd (ground arith)
some-found (some a) h = (a, refl)

pub find_one-found :
    (id user : ℕ) (s : Store) {p : Project}
    → not_deleted (find_by_id id s.projects) ≡ some p
    → find_one id user false s
      ≡ (throw_if (not (has_role p user s.workspaces)) Exception.forbidden >> pure p) s
unfolding find_one
find_one-found id user s found =
    ap (λ o. (or_throw o Exception.not_found >>= (λ p. check_access p user >> pure p)) s) found

pub find_one-absent :
    (id user : ℕ) (s : Store)
    → not_deleted (find_by_id id s.projects) ≡ none
    → find_one id user false s ≡ (err Exception.not_found, s)
unfolding find_one
find_one-absent id user s absent =
    ap (λ o. (or_throw o Exception.not_found >>= (λ p. check_access p user >> pure p)) s) absent

pub resolve_role-found :
    (id user : ℕ) (s : Store) {p : Project}
    → not_deleted (find_by_id id s.projects) ≡ some p
    → resolve_role id user s ≡ role_in_project user p s.workspaces
unfolding resolve_role
resolve_role-found id user s found = rw (found, resolve_role) refl

resolve_role-absent :
    (id user : ℕ) (s : Store)
    → not_deleted (find_by_id id s.projects) ≡ none
    → resolve_role id user s ≡ none
unfolding resolve_role
resolve_role-absent id user s absent = rw (absent, resolve_role) refl

-- `findOne` gives a project to a user who is not a super admin exactly when `resolveRole` finds a
-- role for them in it, whether it comes from owning it, from its members or from its workspace.
pub find_one_iff :
    (id user : ℕ) (s : Store)
    → ((p : Project) × (find_one id user false s ≡ (ok p, s))) ↔ HasRole id user s
find_one_iff id user s = elim (Option-cases (not_deleted (find_by_id id s.projects))) [
  | inl absent ↦ (
    λ (p, e). absurd (ground (arith, e, find_one-absent id user s absent)),
    λ (r, e). absurd (ground (arith, e, resolve_role-absent id user s absent)),
  )
  | inr (p, found) ↦ elim (Bool-cases (has_role p user s.workspaces)) [
    | inl may ↦
        let role =
          some-found (role_in_project user p s.workspaces)
            (role_in_project-has_role user p s.workspaces ∙ may) in
        (
          λ _. (role.0, resolve_role-found id user s found ∙ role.1),
          λ _. (
            p,
            find_one-found id user s found
                ∙ ap (λ b. (throw_if (not b) Exception.forbidden >> pure p) s) may,
          ),
        )
    | inr may_not ↦ (
      λ (q, e). absurd (
          ground (
            arith,
            e,
            find_one-found id user s found
                ∙ ap (λ b. (throw_if (not b) Exception.forbidden >> pure p) s) may_not,
          )),
      λ (r, e). absurd (
          ground (
            arith,
            role_in_project-has_role user p s.workspaces ∙ may_not,
            ap is_some (sym (resolve_role-found id user s found) ∙ e),
          )),
    )
  ]
]

-- Anyone with a role in a project, a viewer too, can link it to another workspace by `update`; then
-- whoever has a role in that workspace, if it is active, has that role in the project, an owner's
-- included, unless they own the project or are among its members.
pub update_lends_role :
    (id user other w : ℕ) (dto : UpdateDto) (s : Store) {p : Project} {ws : Workspace}
    {r r' : MemberRole}
    → find_by_id id s.projects ≡ some p
    → resolve_role id user s ≡ some r
    → dto.workspace_id ≡ some w
    → find_by_id w s.workspaces ≡ some ws
    → ws.is_active ≡ true
    → role_of other ws.members ≡ some r'
    → p.owner_id == other ≡ false
    → role_of other p.members ≡ none
    → resolve_role id other (update id user dto false s).1 ≡ some r'
unfolding update
update_lends_role id user other w dto s {p} {ws} {r} {r'} found has linked at_w is_on lent not_owner
      not_member =
    let s' = change_project id (apply_updates dto) s in
    let (q, opens) = (find_one_iff id user s).1 (r, has) in
    let done : (update id user dto false s).1 ≡ s' =
      ap (λ p. p.1)
        (bind-ok (find_one id user false) (λ _. modify (change_project id (apply_updates dto)))
          opens) in
    let there : find_by_id id s'.projects ≡ some (apply_updates dto p) =
      find_by_id-update_self id (apply_updates dto) s.projects found in
    let linked_ws : workspace_of (apply_updates dto p) s.workspaces ≡ some ws =
      rw (linked, at_w, is_on) refl in
    ap (resolve_role id other) done
    ∙ resolve_role-found id other s' (ap not_deleted there ∙ if-false _ kept)
    ∙ if-false _ not_owner
    ∙ rw not_member (ap (role_in other) linked_ws ∙ lent)
  where
    kept : is_some p.deleted_at ≡ false
    kept = elim (Bool-cases (is_some p.deleted_at)) [
      | inr alive ↦ alive
      | inl gone ↦ absurd (
          ground
            (arith, has, resolve_role-absent id user s (ap not_deleted found ∙ if-true _ gone)))
    ]
