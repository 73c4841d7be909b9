-- ===== src/Permissions/Hierarchy.antt =====
-- The built-in roles of src/modules/permissions/permissions.constants.ts, ordered by what they may
-- do.
use Prim.Native.String.{String}
use text.Mathlib.Text.{◌==◌ as str_eq}
use text.Mathlib.TextEquality as Text
use webhook_backend.Prelude.{
  ◌≡◌, refl, subst, ap, ok, true, List, [], ◌∷◌, all, Bool-cases, inl, inr, arith,
}
use webhook_backend.Permissions.Service.{Store, project_role, has_permission}
use webhook_backend.Permissions.{
  Resource, ResourceAction, ProjectRole, owner, admin, developer, viewer, permission,
  role_permissions, includes,
}

-- The next role up; the owner has none above.
abbrev pub next_role : ProjectRole → ProjectRole
next_role viewer = developer
next_role developer = admin
next_role admin = owner
next_role owner = owner

all_included :
    (role : ProjectRole)
    → all (λ p. includes p (role_permissions (next_role role))) (role_permissions role) ≡ true
all_included owner = refl
all_included admin = refl
all_included developer = refl
all_included viewer = refl

-- What a list of permissions includes, a list that includes all of them does.
pub includes_trans :
    (p : String) (xs ys : List String)
    → all (λ q. includes q ys) xs ≡ true
    → includes p xs ≡ true
    → includes p ys ≡ true
includes_trans p [] ys sub h = ground arith
includes_trans p (q ∷ xs) ys sub h = elim (Bool-cases (str_eq q p)) [
  | inl same ↦ subst (λ x. includes x ys ≡ true) ((Text.eq_iff q p).0 same) (ground arith)
  | inr other ↦ includes_trans p xs ys (ground arith) (ground arith)
]

-- A built-in role may do whatever the role below it may: the developer what the viewer may, the
-- admin what the developer may, and the owner what the admin may.
pub has_permission_next :
    (role : ProjectRole) (r : Resource) (a : ResourceAction) (s : Store)
    → has_permission (project_role role) r a s ≡ (ok true, s)
    → has_permission (project_role (next_role role)) r a s ≡ (ok true, s)
has_permission_next role r a s h =
    ap (λ b. (ok b, s))
      (includes_trans (permission r a) (role_permissions role) (role_permissions (next_role role))
        (all_included role) (ground (arith, h)))
