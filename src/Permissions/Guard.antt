-- ===== src/Permissions/Guard.antt =====
-- src/modules/permissions/permissions.guard.ts: who passes a route that names a permission.
use webhook_backend.Prelude.{
  ◌≡◌, ◌⊎◌, ◌↔◌, refl, sym, ap, ◌∙◌, inl, inr, Bool, true, false, not, Option, some, none, ok,
  Exception, Action, throw_if, or_throw, pure, ◌>>=◌, ◌>>◌, arith, Bool-cases, Option-cases,
}
use webhook_backend.Permissions.{Resource, ResourceAction, permission, includes}
use webhook_backend.Permissions.Service.{
  Store, RoleName, project_role, custom, has_permission, get_permissions,
}
use webhook_backend.Permissions.Cache.{IsCoherent, ask-lem}

-- `is_super_admin` is `user.role === 'super_admin'`.
pub record RequestUser : Type 0 where
  pub is_super_admin : Bool

-- What the guard reads of a request.
pub record Request : Type 0 where
  pub user : Option RequestUser
  pub project_role : Option RoleName
  pub workspace_role : Option RoleName

-- `@RequirePermission(resource, action)`
pub record Requirement : Type 0 where
  pub resource : Resource
  pub action : ResourceAction

-- `request.projectRole || request.workspaceRole`
abbrev pub role_of_request : Request → Option RoleName
role_of_request req = elim req.project_role [ some role ↦ some role | none ↦ req.workspace_role ]

-- Lets pass what is allowed.
abbrev pub or_forbid : Action Store Bool → Action Store Bool
or_forbid asked = do allowed ← asked; throw_if (not allowed) Exception.forbidden; pure true

abbrev pub ask_role : Requirement → Request → Action Store Bool
ask_role need req = do
  role ← or_throw (role_of_request req) Exception.forbidden
  or_forbid (has_permission role need.resource need.action)

abbrev pub ask_user : Requirement → Request → Bool → Action Store Bool
ask_user need req true = pure true
ask_user need req false = ask_role need req

abbrev pub ask_request : Option Requirement → Request → Action Store Bool
ask_request none req = pure true
ask_request (some need) req = do
  user ← or_throw req.user Exception.forbidden
  ask_user need req user.is_super_admin

-- `canActivate`; the requirement is the handler's or, without one, the class's.
pub can_activate : (handler class : Option Requirement) → Request → Action Store Bool
can_activate (some need) class req = ask_request (some need) req
can_activate none class req = ask_request class req

-- The permissions that `getPermissions` lists are those that `hasPermission` grants.
pub has_permission-get_permissions :
    (role : RoleName) (r : Resource) (a : ResourceAction) (s : Store)
    → IsCoherent s
    → (has_permission role r a s).0 ≡ ok (includes (permission r a) (get_permissions role s))
has_permission-get_permissions (project_role role) r a s h = ground arith
has_permission-get_permissions (custom id) r a s h = (ask-lem id (permission r a) s h).0

or_forbid-lem :
    (asked : Action Store Bool) (s : Store) {b : Bool}
    → (asked s).0 ≡ ok b
    → ((or_forbid asked s).0 ≡ ok true) ↔ (b ≡ true)
or_forbid-lem asked s {b = true} e = (λ h. refl, λ h. ground arith)
or_forbid-lem asked s {b = false} e = (λ h. ground arith, λ h. ground arith)

-- Who may pass.
abbrev pub MayPass : Requirement → Request → Store → Type 0
MayPass need req s =
    (user : RequestUser) × (req.user ≡ some user)
    × ((user.is_super_admin ≡ true)
        ⊎ ((role : RoleName) × (role_of_request req ≡ some role)
            × (includes (permission need.resource need.action) (get_permissions role s) ≡ true)))

can_activate-plain :
    (need : Requirement) (class : Option Requirement) (req : Request) (s : Store)
    {user : RequestUser} {role : RoleName}
    → req.user ≡ some user
    → user.is_super_admin ≡ false
    → role_of_request req ≡ some role
    → can_activate (some need) class req s
      ≡ or_forbid (has_permission role need.resource need.action) s
unfolding can_activate
can_activate-plain need class req s found plain has = rw (found, plain, has) refl

may_pass :
    (need : Requirement) (class : Option Requirement) (req : Request) (s : Store)
    → IsCoherent s
    → MayPass need req s
    → (can_activate (some need) class req s).0 ≡ ok true
unfolding can_activate
may_pass need class req s h (user, found, inl super) = rw (found, super) refl
may_pass need class req s h (user, found, inr (role, has, may)) =
    elim (Bool-cases user.is_super_admin) [
      | inl super ↦ rw (found, super) refl
      | inr plain ↦
          ap (λ p. p.0) (can_activate-plain need class req s found plain has)
          ∙ (or_forbid-lem (has_permission role need.resource need.action) s
                (has_permission-get_permissions role need.resource need.action s h)).1
              may
    ]

-- With a coherent cache, a request passes a route that requires a permission exactly when it has a
-- user who is a super admin, or one whose role (in the project, else in the workspace) has that
-- permission among those that `getPermissions` lists.
pub can_activate_iff :
    (need : Requirement) (class : Option Requirement) (req : Request) (s : Store)
    → IsCoherent s
    → ((can_activate (some need) class req s).0 ≡ ok true) ↔ MayPass need req s
unfolding can_activate
can_activate_iff need class req s h = elim (Option-cases req.user) [
  | inl absent ↦ (λ e. absurd (ground arith), may_pass need class req s h)
  | inr (user, found) ↦ elim (Bool-cases user.is_super_admin) [
    | inl super ↦ (λ e. (user, found, inl super), may_pass need class req s h)
    | inr plain ↦ elim (Option-cases (role_of_request req)) [
      | inl roleless ↦ (λ e. absurd (ground arith), may_pass need class req s h)
      | inr (role, has) ↦ (
        λ e. (
          user,
          found,
          inr (
            role,
            has,
            (or_forbid-lem (has_permission role need.resource need.action) s
                  (has_permission-get_permissions role need.resource need.action s h)).0
                (sym (ap (λ p. p.0) (can_activate-plain need class req s found plain has)) ∙ e),
          ),
        ),
        may_pass need class req s h,
      )
    ]
  ]
]
