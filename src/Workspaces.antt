-- ===== src/Workspaces.antt =====
-- src/modules/workspaces/workspaces.service.ts: teams that share projects, their members, and the
-- invitations to them. `is_super` is `userRole === 'super_admin'`. Names, slugs and the audit log
-- are left out.
pub mod Membership
pub mod Ownership
pub mod Invitations
mod Tests
use Prim.Native.String.{String}
use text.Mathlib.Text.{◌==◌ as str_eq}
use webhook_backend.Prelude.{
  ℕ, ◌+◌, Bool, true, false, not, ◌&&◌, ◌||◌, Option, some, none, List, [], ◌∷◌, ◌++◌, length,
  filter, Collection, find_by_id, update_by_id, delete_many, count_documents, find_many, num_or,
  if◌then◌else◌, leb, ltb, ◌==◌, any, Result, ok, err, Exception, Action, throw_if, or_throw, gets,
  modify, nullish_or, pure, ◌>>=◌, ◌>>◌, is_some,
}

pub data MemberRole : Type 0 where
  owner admin developer viewer : MemberRole

pub record WorkspaceMember : Type 0 where
  pub user_id : ℕ
  pub role : MemberRole

pub record Workspace : Type 0 where
  pub owner_id : ℕ
  pub members : List WorkspaceMember
  pub is_active : Bool

pub record WorkspaceInvite : Type 0 where
  pub workspace_id : ℕ
  pub email : String
  pub role : MemberRole
  pub token : String
  pub otp : String
  pub accepted : Bool
  pub expires_at : ℕ

pub record WorkspaceUser : Type 0 where
  pub email : String
  pub plan : String

pub record Store : Type 0 where
  pub workspaces : Collection Workspace
  pub invites : Collection WorkspaceInvite
  pub users : Collection WorkspaceUser
  -- `teamMembersLimit` of a user's subscription, where the document has it.
  pub team_members_limits : Collection ℕ

-- What the service takes from outside: `toLowerCase`, SHA-256, and the random token and code.
pub record Outside : Type 0 where
  pub to_lower_case : String → String
  pub hash_otp : String → String

abbrev pub role_of : ℕ → List WorkspaceMember → Option MemberRole
role_of user [] = none
role_of user (m ∷ ms) = if m.user_id == user then some m.role else role_of user ms

-- `ws.members.some(m => m.userId === user)`
abbrev pub is_member : ℕ → List WorkspaceMember → Bool
is_member user ms = is_some (role_of user ms)

-- `['owner', 'admin'].includes(member.role)`
abbrev pub manages : Option MemberRole → Bool
manages (some owner) = true
manages (some admin) = true
manages _ = false

abbrev pub is_owner_role : MemberRole → Bool
is_owner_role owner = true
is_owner_role _ = false

abbrev pub owns : Option MemberRole → Bool
owns (some r) = is_owner_role r
owns none = false

abbrev pub new_workspace : ℕ → Workspace
new_workspace user = record {
  owner_id = user;
  members = (record { user_id = user; role = owner }) ∷ [];
  is_active = true;
}

-- `create`; `id` is the new document's.
pub create : (id user : ℕ) → Store → Store
create id user s = record s { workspaces = (id, new_workspace user) ∷ s.workspaces }

-- `findOne`
pub find_one : ℕ → ℕ → (is_super : Bool) → Action Store Workspace
find_one id user is_super = do
  ws ← or_throw (← gets (λ s. find_by_id id s.workspaces)) Exception.not_found
  throw_if (not (is_super || is_member user ws.members)) Exception.forbidden
  pure ws

-- `findOne`, and the check that the caller manages the workspace.
pub find_managed : ℕ → ℕ → (is_super : Bool) → Action Store Workspace
unfolding find_one
find_managed id user is_super = do
  ws ← find_one id user is_super
  throw_if (not (is_super || manages (role_of user ws.members))) Exception.forbidden
  pure ws

-- `enforceEnterprisePlan`
pub enforce_enterprise_plan : ℕ → Action Store (Unit {0})
enforce_enterprise_plan owner_id = do
  user ← or_throw (← gets (λ s. find_by_id owner_id s.users)) Exception.not_found
  throw_if (not (str_eq user.plan "enterprise")) Exception.forbidden

-- What the `$set` of `update` may name; `CreateWorkspaceDto` has none of these fields.
pub record WorkspaceUpdate : Type 0 where
  pub owner_id : Option ℕ
  pub members : Option (List WorkspaceMember)
  pub is_active : Option Bool

abbrev pub set_fields : WorkspaceUpdate → Workspace → Workspace
set_fields dto ws = record {
  owner_id = nullish_or dto.owner_id ws.owner_id;
  members = nullish_or dto.members ws.members;
  is_active = nullish_or dto.is_active ws.is_active;
}

-- `update`
pub update : ℕ → ℕ → WorkspaceUpdate → (is_super : Bool) → Action Store (Unit {0})
unfolding find_managed
update id user dto is_super = do
  ws ← find_managed id user is_super
  modify (λ s. record s { workspaces = update_by_id id (set_fields dto) s.workspaces })

abbrev pub is_pending_of : ℕ → WorkspaceInvite → Bool
is_pending_of id i = i.workspace_id == id && not i.accepted

abbrev pub is_pending_to : ℕ → String → WorkspaceInvite → Bool
is_pending_to id email i = is_pending_of id i && str_eq i.email email

-- Whether a member's account has the address.
abbrev pub has_email : String → List WorkspaceMember → Collection WorkspaceUser → Bool
has_email email ms [] = false
has_email email ms ((id, u) ∷ users) =
    if str_eq u.email email then is_member id ms else has_email email ms users

-- `invite`; the new document's id, token and code are those of the call.
pub invite :
    Outside
    → (id user : ℕ) → (email : String) → MemberRole
    → (is_super : Bool) → (now invite_id : ℕ) → (token otp : String) → Action Store (Unit {0})
unfolding find_managed enforce_enterprise_plan
invite out id user email role is_super now invite_id token otp = do
  ws ← find_managed id user is_super
  (if is_super then pure tt else enforce_enterprise_plan ws.owner_id)
  limit ← gets (λ s. num_or (find_by_id ws.owner_id s.team_members_limits) 1)
  pending ← gets (λ s. count_documents (is_pending_of id) s.invites)
  throw_if (leb limit (length ws.members + pending) && not is_super) Exception.forbidden
  taken ← gets (λ s. has_email (out.to_lower_case email) ws.members s.users)
  throw_if taken Exception.conflict
  invited ←
      gets (λ s. ltb 0 (count_documents (is_pending_to id (out.to_lower_case email)) s.invites))
  throw_if invited Exception.conflict
  modify (λ s. record s {
    invites =
        (
          invite_id,
          record {
            workspace_id = id;
            email = out.to_lower_case email;
            role = role;
            token = token;
            otp = out.hash_otp otp;
            accepted = false;
            expires_at = now + 604_800_000;
          },
        )
        ∷ s.invites;
  })

-- `ws.members.push`
abbrev pub add_member : ℕ → MemberRole → Workspace → Workspace
add_member user role ws = record ws {
  members = ws.members ++ (record { user_id = user; role = role }) ∷ [];
}

-- `processAcceptInvite`
pub process_accept_invite : (invite_id : ℕ) → WorkspaceInvite → ℕ → Action Store (Unit {0})
process_accept_invite invite_id i user = do
  ws ← or_throw (← gets (λ s. find_by_id i.workspace_id s.workspaces)) Exception.not_found
  throw_if (is_member user ws.members) Exception.conflict
  modify (λ s. record s {
    workspaces = update_by_id i.workspace_id (add_member user i.role) s.workspaces;
    invites = update_by_id invite_id (λ j. record j { accepted = true }) s.invites;
  })

abbrev pub first_entry : Collection WorkspaceInvite → Option (ℕ × WorkspaceInvite)
first_entry [] = none
first_entry (e ∷ es) = some e

-- `acceptInvite`
pub accept_invite : (token : String) → (user now : ℕ) → Action Store (Unit {0})
unfolding process_accept_invite
accept_invite token user now = do
  found ←
      gets (λ s. first_entry (find_many (λ i. str_eq i.token token && not i.accepted) s.invites))
  entry ← or_throw found Exception.not_found
  throw_if (ltb entry.1.expires_at now) Exception.forbidden
  process_accept_invite entry.0 entry.1 user

abbrev pub is_address_of : Outside → Option WorkspaceUser → String → Bool
is_address_of out none email = false
is_address_of out (some u) email = str_eq (out.to_lower_case u.email) (out.to_lower_case email)

-- `acceptInviteByOtp`
pub accept_invite_by_otp :
    Outside → (id : ℕ) → (otp : String) → (user now : ℕ) → Action Store (Unit {0})
unfolding process_accept_invite
accept_invite_by_otp out id otp user now = do
  found ← gets (λ s.
      first_entry
        (find_many (λ i. is_pending_of id i && str_eq i.otp (out.hash_otp otp)) s.invites))
  entry ← or_throw found Exception.not_found
  throw_if (ltb entry.1.expires_at now) Exception.forbidden
  account ← gets (λ s. find_by_id user s.users)
  throw_if (not (is_address_of out account entry.1.email)) Exception.forbidden
  process_accept_invite entry.0 entry.1 user

-- `$pull: { members: { userId } }`
abbrev pub pull_member : ℕ → Workspace → Workspace
pull_member user ws = record ws { members = filter (λ m. not (m.user_id == user)) ws.members }

-- `removeMember`
pub remove_member : (id user target : ℕ) → (is_super : Bool) → Action Store (Unit {0})
unfolding find_managed
remove_member id user target is_super = do
  ws ← find_managed id user is_super
  throw_if (target == ws.owner_id) Exception.forbidden
  modify (λ s. record s { workspaces = update_by_id id (pull_member target) s.workspaces })

-- `$set: { 'members.$.role': role }`, at the first member who matches.
abbrev pub set_role : ℕ → MemberRole → List WorkspaceMember → List WorkspaceMember
set_role user role [] = []
set_role user role (m ∷ ms) =
    if m.user_id == user then (record m { role = role }) ∷ ms else m ∷ set_role user role ms

-- `updateMemberRole`
pub update_member_role :
    (id user target : ℕ) → MemberRole → (is_super : Bool) → Action Store (Unit {0})
unfolding find_one
update_member_role id user target role is_super = do
  ws ← find_one id user is_super
  throw_if (not (is_super || owns (role_of user ws.members))) Exception.forbidden
  throw_if (target == ws.owner_id && not (is_owner_role role)) Exception.forbidden
  modify (λ s. record s {
    workspaces =
        update_by_id id (λ w. record w { members = set_role target role w.members }) s.workspaces;
  })

abbrev pub is_revocable : ℕ → Option WorkspaceInvite → Bool
is_revocable id none = false
is_revocable id (some i) = is_pending_of id i

abbrev pub delete_by_id : ℕ → Collection WorkspaceInvite → Collection WorkspaceInvite
delete_by_id k [] = []
delete_by_id k ((j, i) ∷ invites) = if j == k then invites else (j, i) ∷ delete_by_id k invites

-- `revokeInvite`
pub revoke_invite : (id invite_id user : ℕ) → (is_super : Bool) → Action Store (Unit {0})
unfolding find_managed
revoke_invite id invite_id user is_super = do
  ws ← find_managed id user is_super
  pending ← gets (λ s. is_revocable id (find_by_id invite_id s.invites))
  throw_if (not pending) Exception.not_found
  modify (λ s. record s { invites = delete_by_id invite_id s.invites })

-- `delete`
pub delete : (id user : ℕ) → (is_super : Bool) → Action Store (Unit {0})
unfolding find_one
delete id user is_super = do
  ws ← find_one id user is_super
  throw_if (not (is_super || ws.owner_id == user)) Exception.forbidden
  modify (λ s. record s {
    workspaces = update_by_id id (λ w. record w { is_active = false }) s.workspaces;
  })
