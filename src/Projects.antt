-- ===== src/Projects.antt =====
-- src/modules/projects/projects.service.ts: projects, their members, and the access that a
-- workspace lends. `is_super` is `userRole === 'super_admin'`. Names and descriptions are left out.
pub mod Access
pub mod Members
mod Tests
use webhook_backend.Prelude.{
  ℕ, suc, ◌+◌, Bool, true, false, not, ◌&&◌, ◌||◌, Option, some, none, List, [], ◌∷◌, ◌++◌, filter,
  Collection, find_by_id, update_by_id, find_many, nullish_or, is_some, ltb, ◌==◌, if◌then◌else◌,
  Result, ok, err, Exception, Action, throw_if, or_throw, gets, modify, pure, ◌>>=◌, ◌>>◌,
}
use webhook_backend.Workspaces.{
  MemberRole, owner, admin, developer, viewer, WorkspaceMember, Workspace, role_of, is_member,
  manages, set_role,
}

pub record Project : Type 0 where
  pub owner_id : ℕ
  pub workspace_id : Option ℕ
  pub members : List WorkspaceMember
  pub max_retry_attempts : ℕ
  pub default_timeout_ms : ℕ
  pub monthly_event_limit : ℕ
  pub current_month_events : ℕ
  pub deleted_at : Option ℕ

pub record Store : Type 0 where
  pub projects : Collection Project
  pub workspaces : Collection Workspace

abbrev pub new_project : (owner_id : ℕ) → (workspace : Option ℕ) → Project
new_project owner_id workspace = record {
  owner_id = owner_id;
  workspace_id = workspace;
  members = [];
  max_retry_attempts = 5;
  default_timeout_ms = 30_000;
  monthly_event_limit = 10_000;
  current_month_events = 0;
  deleted_at = none;
}

-- `create`; `id` is the new document's.
pub create : (id owner_id : ℕ) → (workspace : Option ℕ) → Store → Store
create id owner_id workspace s = record s {
  projects = (id, new_project owner_id workspace) ∷ s.projects;
}

-- `deletedAt: null`
abbrev pub not_deleted : Option Project → Option Project
not_deleted none = none
not_deleted (some p) = if is_some p.deleted_at then none else some p

abbrev pub active_workspace : Option Workspace → Option Workspace
active_workspace none = none
active_workspace (some w) = if w.is_active then some w else none

-- `findOne({ _id: project.workspaceId, isActive: true })`, if there is one
abbrev pub workspace_of : Project → Collection Workspace → Option Workspace
workspace_of p workspaces = elim p.workspace_id [
  | none ↦ none
  | some id ↦ active_workspace (find_by_id id workspaces)
]

abbrev pub is_member_of : ℕ → Option Workspace → Bool
is_member_of user none = false
is_member_of user (some w) = is_member user w.members

-- `checkAccess`
abbrev pub check_access : Project → (user : ℕ) → Action Store (Unit {0})
check_access p user = do
  lent ← gets (λ s. is_member_of user (workspace_of p s.workspaces))
  throw_if (not (p.owner_id == user || is_member user p.members || lent)) Exception.forbidden

-- `if (userRole === 'super_admin') return project`
abbrev pub check_unless_super : (is_super : Bool) → Project → (user : ℕ) → Action Store (Unit {0})
check_unless_super true p user = pure tt
check_unless_super false p user = check_access p user

-- `findOne`
unfoldable pub find_one : (id user : ℕ) → (is_super : Bool) → Action Store Project
find_one id user is_super = do
  p ← or_throw (← gets (λ s. not_deleted (find_by_id id s.projects))) Exception.not_found
  check_unless_super is_super p user
  pure p

abbrev pub role_in : ℕ → Option Workspace → Option MemberRole
role_in user none = none
role_in user (some w) = role_of user w.members

abbrev pub role_in_project : ℕ → Project → Collection Workspace → Option MemberRole
role_in_project user p workspaces =
    if p.owner_id == user then some owner else elim (role_of user p.members) [
      | some r ↦ some r
      | none ↦ role_in user (workspace_of p workspaces)
    ]

-- `resolveRole`
pub resolve_role : (id user : ℕ) → Store → Option MemberRole
resolve_role id user s = elim (not_deleted (find_by_id id s.projects)) [
  | none ↦ none
  | some p ↦ role_in_project user p s.workspaces
]

-- The fields of `UpdateProjectDto` that are kept here
pub record UpdateDto : Type 0 where
  pub max_retry_attempts : Option ℕ
  pub default_timeout_ms : Option ℕ
  pub workspace_id : Option ℕ

abbrev pub or_old : Option ℕ → Option ℕ → Option ℕ
or_old none old = old
or_old (some a) old = some a

abbrev pub apply_updates : UpdateDto → Project → Project
apply_updates dto p = record p {
  max_retry_attempts = nullish_or dto.max_retry_attempts p.max_retry_attempts;
  default_timeout_ms = nullish_or dto.default_timeout_ms p.default_timeout_ms;
  workspace_id = or_old dto.workspace_id p.workspace_id;
}

abbrev pub change_project : ℕ → (Project → Project) → Store → Store
change_project id f s = record s { projects = update_by_id id f s.projects }

-- `update`
pub update : (id user : ℕ) → UpdateDto → (is_super : Bool) → Action Store (Unit {0})
unfolding find_one
update id user dto is_super = do
  p ← find_one id user is_super
  modify (change_project id (apply_updates dto))

-- `delete`
pub delete : (id user : ℕ) → (is_super : Bool) → (now : ℕ) → Action Store (Unit {0})
delete id user is_super now = do
  p ← or_throw (← gets (λ s. not_deleted (find_by_id id s.projects))) Exception.not_found
  throw_if (not (is_super || p.owner_id == user)) Exception.forbidden
  modify (change_project id (λ p. record p { deleted_at = some now }))

-- `isOwner || isAdmin`; `some` looks at every entry of the list.
abbrev pub is_managing : ℕ → List WorkspaceMember → Bool
is_managing user [] = false
is_managing user (m ∷ ms) = (m.user_id == user && manages (some m.role)) || is_managing user ms

abbrev pub may_manage : (is_super : Bool) → ℕ → Project → Bool
may_manage is_super user p = is_super || p.owner_id == user || is_managing user p.members

abbrev pub push_member : ℕ → MemberRole → Project → Project
push_member user role p = record p {
  members = p.members ++ (record { user_id = user; role = role }) ∷ [];
}

abbrev pub push_unless : Bool → (id member : ℕ) → MemberRole → Action Store (Unit {0})
push_unless true id member role = pure tt
push_unless false id member role = modify (change_project id (push_member member role))

-- `addMember`
pub add_member : (id user member : ℕ) → MemberRole → (is_super : Bool) → Action Store (Unit {0})
unfolding find_one
add_member id user member role is_super = do
  p ← find_one id user is_super
  throw_if (not (may_manage is_super user p)) Exception.forbidden
  push_unless (is_member member p.members) id member role

abbrev pub pull_member : ℕ → Project → Project
pull_member user p = record p { members = filter (λ m. not (m.user_id == user)) p.members }

-- `removeMember`
pub remove_member : (id user target : ℕ) → (is_super : Bool) → Action Store (Unit {0})
unfolding find_one
remove_member id user target is_super = do
  p ← find_one id user is_super
  throw_if (not (may_manage is_super user p)) Exception.forbidden
  throw_if (target == p.owner_id) Exception.forbidden
  modify (change_project id (pull_member target))

-- `updateMemberRole`
pub update_member_role :
    (id user target : ℕ) → MemberRole → (is_super : Bool) → Action Store (Unit {0})
unfolding find_one
update_member_role id user target role is_super = do
  p ← find_one id user is_super
  throw_if (not (is_super || p.owner_id == user)) Exception.forbidden
  modify (change_project id (λ p. record p { members = set_role target role p.members }))

-- `incrementEventCount`
pub increment_event_count : ℕ → Store → Store
increment_event_count id s =
    change_project id (λ p. record p { current_month_events = suc p.current_month_events }) s

-- `checkEventLimit`
pub check_event_limit : ℕ → Store → Bool
check_event_limit id s = elim (find_by_id id s.projects) [
  | none ↦ false
  | some p ↦ ltb p.current_month_events p.monthly_event_limit
]
