-- ===== src/Workspaces/Invitations.antt =====
-- Who can invite whom.
use Prim.Native.String.{String}
use text.Mathlib.Text.{◌==◌ as str_eq}
use webhook_backend.Prelude.{
  ℕ, ◌+◌, ◌≤◌, ◌<◌, ◌≡◌, ◌⊎◌, inl, inr, true, false, some, List, [], ◌∷◌, length, find_by_id,
  count_documents, num_or, leb, ltb, arith, Bool-cases, Option-cases,
}
use webhook_backend.Workspaces.{
  MemberRole, owner, WorkspaceMember, Workspace, WorkspaceInvite, Store, Outside, role_of,
  is_member, find_one, find_managed, enforce_enterprise_plan, invite, is_pending_of, is_pending_to,
  has_email, manages,
}
use webhook_backend.Workspaces.Membership.{IsOwned, HasOwners}

-- The new invitation.
abbrev pub new_invite :
    Outside → ℕ → String → MemberRole → (now : ℕ) → (token otp : String) → WorkspaceInvite
new_invite out id email role now token otp = record {
  workspace_id = id;
  email = out.to_lower_case email;
  role = role;
  token = token;
  otp = out.hash_otp otp;
  accepted = false;
  expires_at = now + 604_800_000;
}

abbrev pub team_limit : ℕ → Store → ℕ
team_limit owner_id s = num_or (find_by_id owner_id s.team_members_limits) 1

-- A manager of the workspace, whose owner has the enterprise plan, and a place in the team.
abbrev pub MayInvite : ℕ → ℕ → Workspace → Store → Type 0
MayInvite id user ws s =
    (manages (role_of user ws.members) ≡ true)
    × (length ws.members + count_documents (is_pending_of id) s.invites < team_limit ws.owner_id s)

role_of-length :
    (u : ℕ) (r : MemberRole) (ms : List WorkspaceMember) → role_of u ms ≡ some r → 1 ≤ length ms
role_of-length u r [] h = ground arith
role_of-length u r (m ∷ ms) h = omega arith

module _ (out : Outside) (id user : ℕ) (email : String) (role : MemberRole) (now invite_id : ℕ)
    (token otp : String) (s : Store) where
  -- A user who is no super admin invites nobody, or manages the workspace, whose members and pending
  -- invitations are fewer than the team limit, and adds one pending invitation for a week, to an
  -- address that has none.
  pub invite_allowed :
      let s' = (invite out id user email role false now invite_id token otp s).1 in
      (s' ≡ s)
      ⊎ ((ws : Workspace) × (find_by_id id s.workspaces ≡ some ws)
          × MayInvite id user ws s
          × (count_documents (is_pending_to id (out.to_lower_case email)) s.invites ≡ 0)
          × (s'.invites ≡ (invite_id, new_invite out id email role now token otp) ∷ s.invites))
  unfolding invite find_managed find_one enforce_enterprise_plan
  invite_allowed = elim (Option-cases (find_by_id id s.workspaces)) [
    | inl absent ↦ inl (ground arith)
    | inr (ws, found) ↦ elim (Bool-cases (is_member user ws.members)) [
      | inr out_side ↦ inl (ground arith)
      | inl member ↦ elim (Bool-cases (manages (role_of user ws.members))) [
        | inr low ↦ inl (ground arith)
        | inl managing ↦ elim (Option-cases (find_by_id ws.owner_id s.users)) [
          | inl gone ↦ inl (ground arith)
          | inr (u, account) ↦ elim (Bool-cases (str_eq u.plan "enterprise")) [
            | inr small ↦ inl (ground arith)
            | inl large ↦
                elim (Bool-cases (
                  leb (team_limit ws.owner_id s)
                    (length ws.members + count_documents (is_pending_of id) s.invites))) [
                      | inl full ↦ inl (ground arith)
                      | inr room ↦
                          elim (Bool-cases
                            (has_email (out.to_lower_case email) ws.members s.users)) [
                              | inl taken ↦ inl (ground arith)
                              | inr free ↦
                                  elim (Bool-cases (
                                    ltb 0 (
                                      count_documents (is_pending_to id (out.to_lower_case email))
                                        s.invites))) [
                                          | inl invited ↦ inl (ground arith)
                                          | inr fresh ↦ inr (
                                            ws,
                                            found,
                                            (managing, ground arith),
                                            ground arith,
                                            ground arith,
                                          )
                                        ]
                            ]
                    ]
          ]
        ]
      ]
    ]
  ]

  -- Where no subscription document has a team limit, a user who is no super admin invites nobody to
  -- a workspace that has its owner: the owner already fills the team of one.
  pub invite_without_limit :
      HasOwners s
      → s.team_members_limits ≡ []
      → (invite out id user email role false now invite_id token otp s).1 ≡ s
  invite_without_limit h unlimited = elim invite_allowed [
    | inl same ↦ same
    | inr (ws, found, (managing, room), fresh, e) ↦
        absurd (full ws (h id ws found) (rw unlimited at room))
  ]
    where
      full :
          (ws : Workspace)
          → IsOwned ws
          → length ws.members + count_documents (is_pending_of id) s.invites < 1
          → ⊥
      full ws owned few = omega (arith, role_of-length ws.owner_id owner ws.members owned)
