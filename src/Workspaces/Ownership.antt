-- ===== src/Workspaces/Ownership.antt =====
-- A workspace keeps its owner through every operation, and who can be invited.
use Prim.Native.String.{String}
use text.Mathlib.Text.{◌==◌ as str_eq}
use webhook_backend.Prelude.{ℕ, ◌≡◌, Bool, none}
use webhook_backend.Workspaces.{
  MemberRole, Store, Outside, WorkspaceUpdate, update, create, invite, accept_invite,
  accept_invite_by_otp, remove_member, update_member_role, revoke_invite, delete,
}

-- What the controller lets through to `update`: `CreateWorkspaceDto` has a name and a description,
-- and `ValidationPipe` refuses every other field.
abbrev pub IsWorkspaceDto : WorkspaceUpdate → Type 0
IsWorkspaceDto dto = (dto.owner_id ≡ none) × (dto.members ≡ none) × (dto.is_active ≡ none)

-- One operation of the service, by anyone, whatever it answers; `update` with what its route lets
-- through.
pub data Step (out : Outside) (s : Store) : Store → Type 0 where
  creates : (id user : ℕ) → Step out s (create id user s)
  updates :
      (id user : ℕ) (dto : WorkspaceUpdate) (is_super : Bool)
      → IsWorkspaceDto dto
      → Step out s (update id user dto is_super s).1
  invites :
      (id user : ℕ) (email : String) (role : MemberRole) (is_super : Bool) (now invite_id : ℕ)
      (token otp : String)
      → Step out s (invite out id user email role is_super now invite_id token otp s).1
  accepts : (token : String) (user now : ℕ) → Step out s (accept_invite token user now s).1
  accepts_by_otp :
      (id : ℕ) (otp : String) (user now : ℕ)
      → Step out s (accept_invite_by_otp out id otp user now s).1
  removes :
      (id user target : ℕ) (is_super : Bool)
      → Step out s (remove_member id user target is_super s).1
  changes_role :
      (id user target : ℕ) (role : MemberRole) (is_super : Bool)
      → Step out s (update_member_role id user target role is_super s).1
  revokes :
      (id invite_id user : ℕ) (is_super : Bool)
      → Step out s (revoke_invite id invite_id user is_super s).1
  deletes : (id user : ℕ) (is_super : Bool) → Step out s (delete id user is_super s).1

-- The stores that the operations lead to, one after another.
pub data IsReachable (out : Outside) (s : Store) : Store → Type 0 where
  here : IsReachable out s s
  there : {s' s'' : Store} → IsReachable out s s' → Step out s' s'' → IsReachable out s s''
