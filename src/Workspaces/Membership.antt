-- ===== src/Workspaces/Membership.antt =====
-- Who is in a workspace: its owner always is, and only those may change it who should.
use webhook_backend.Prelude.{
  ℕ, ◌≡◌, ◌≢◌, ◌⊎◌, inl, inr, refl, Bool, true, not, ◌&&◌, ◌||◌, some, List, [], ◌∷◌, ◌++◌, filter,
  find_by_id, update_by_id, find_by_id-update, ◌==◌, arith, Bool-cases, Option-cases,
}
use webhook_backend.Workspaces.{
  MemberRole, owner, WorkspaceMember, Workspace, WorkspaceInvite, Store, role_of, is_member, create,
  find_one, find_managed, add_member, process_accept_invite, pull_member, set_role, remove_member,
  update_member_role, is_owner_role, owns, manages,
}

-- The owner is among the members, as an owner.
abbrev pub IsOwned : Workspace → Type 0
IsOwned ws = role_of ws.owner_id ws.members ≡ some owner

-- Every workspace has its owner.
abbrev pub HasOwners : Store → Type 0
HasOwners s = (id : ℕ) (ws : Workspace) → find_by_id id s.workspaces ≡ some ws → IsOwned ws

role_of-append :
    (u : ℕ) (r : MemberRole) (ms : List WorkspaceMember) (m : WorkspaceMember)
    → role_of u ms ≡ some r
    → role_of u (ms ++ m ∷ []) ≡ some r
role_of-append u r [] m h = ground arith
role_of-append u r (n ∷ ms) m h = ground (arith, role_of-append u r ms m)

pub role_of-filter :
    (u target : ℕ) (ms : List WorkspaceMember)
    → target ≢ u
    → role_of u (filter (λ m. not (m.user_id == target)) ms) ≡ role_of u ms
role_of-filter u target [] ne = refl
role_of-filter u target (m ∷ ms) ne = ground (arith, role_of-filter u target ms ne)

pub role_of-set_role :
    (u target : ℕ) (r : MemberRole) (ms : List WorkspaceMember)
    → role_of u ms ≡ some owner
    → (target ≡ u → r ≡ owner)
    → role_of u (set_role target r ms) ≡ some owner
role_of-set_role u target r [] h keeps = ground arith
role_of-set_role u target r (m ∷ ms) h keeps = ground (arith, role_of-set_role u target r ms)

pub update-HasOwners :
    (id : ℕ) (f : Workspace → Workspace) (s : Store)
    → HasOwners s
    → ((ws : Workspace) → find_by_id id s.workspaces ≡ some ws → IsOwned (f ws))
    → HasOwners (record s { workspaces = update_by_id id f s.workspaces })
update-HasOwners id f s h step k ws found = elim (Bool-cases (id == k)) [
  | inl here ↦ elim (Option-cases (find_by_id id s.workspaces)) [
    | inl absent ↦ absurd (ground (arith, find_by_id-update id k f s.workspaces))
    | inr (old, was) ↦ ground (arith, find_by_id-update id k f s.workspaces, step old was)
  ]
  | inr there ↦ h k ws (ground (arith, find_by_id-update id k f s.workspaces))
]

pub create-HasOwners : (id user : ℕ) (s : Store) → HasOwners s → HasOwners (create id user s)
unfolding create
create-HasOwners id user s h k ws found = ground (arith, h k ws)

pub process_accept_invite-HasOwners :
    (invite_id : ℕ) (i : WorkspaceInvite) (user : ℕ) (s : Store)
    → HasOwners s
    → HasOwners (process_accept_invite invite_id i user s).1
unfolding process_accept_invite
process_accept_invite-HasOwners invite_id i user s h =
    elim (Option-cases (find_by_id i.workspace_id s.workspaces)) [
      | inl absent ↦ rw (absent, process_accept_invite) h
      | inr (ws, found) ↦ elim (Bool-cases (is_member user ws.members)) [
        | inl member ↦ rw (found, member, process_accept_invite) h
        | inr new_member ↦
            rw (found, new_member, process_accept_invite)
              (update-HasOwners i.workspace_id (add_member user i.role) s h
                (λ w was. role_of-append w.owner_id owner w.members _ (h i.workspace_id w was)))
      ]
    ]

-- Nobody is removed from a workspace, or `target` is, who is not its owner, by an owner or an admin
-- of it or by a super admin; nothing else of the workspaces changes.
pub remove_member_allowed :
    (id user target : ℕ) (is_super : Bool) (s : Store)
    → let s' = (remove_member id user target is_super s).1 in
      (s'.workspaces ≡ s.workspaces)
      ⊎ ((ws : Workspace) × (find_by_id id s.workspaces ≡ some ws)
          × (is_super || manages (role_of user ws.members) ≡ true)
          × (target ≢ ws.owner_id)
          × (s'.workspaces ≡ update_by_id id (pull_member target) s.workspaces))
unfolding remove_member find_managed find_one
remove_member_allowed id user target is_super s = elim (Option-cases (find_by_id id s.workspaces)) [
  | inl absent ↦ inl (ground arith)
  | inr (ws, found) ↦ elim (Bool-cases (is_super || is_member user ws.members)) [
    | inr out ↦ inl (ground arith)
    | inl member ↦ elim (Bool-cases (is_super || manages (role_of user ws.members))) [
      | inr low ↦ inl (ground arith)
      | inl managing ↦ elim (Bool-cases (target == ws.owner_id)) [
        | inl is_owner ↦ inl (ground arith)
        | inr other ↦ inr (ws, found, managing, ground arith, ground arith)
      ]
    ]
  ]
]

-- No role changes, or that of `target` becomes `role`, by an owner or a super admin; the role of
-- the workspace's owner only stays what it is.
pub update_member_role_allowed :
    (id user target : ℕ) (role : MemberRole) (is_super : Bool) (s : Store)
    → let s' = (update_member_role id user target role is_super s).1 in
      (s'.workspaces ≡ s.workspaces)
      ⊎ ((ws : Workspace) × (find_by_id id s.workspaces ≡ some ws)
          × (is_super || owns (role_of user ws.members) ≡ true)
          × ((target ≢ ws.owner_id) ⊎ (role ≡ owner))
          × (s'.workspaces
              ≡ update_by_id id
                  (λ w. record w { members = set_role target role w.members })
                  s.workspaces))
unfolding update_member_role find_one
update_member_role_allowed id user target role is_super s =
    elim (Option-cases (find_by_id id s.workspaces)) [
      | inl absent ↦ inl (ground arith)
      | inr (ws, found) ↦ elim (Bool-cases (is_super || is_member user ws.members)) [
        | inr out ↦ inl (ground arith)
        | inl member ↦ elim (Bool-cases (is_super || owns (role_of user ws.members))) [
          | inr low ↦ inl (ground arith)
          | inl owning ↦ elim (Bool-cases (target == ws.owner_id && not (is_owner_role role))) [
            | inl demotes ↦ inl (ground arith)
            | inr fine ↦ inr (ws, found, owning, ground arith, ground arith)
          ]
        ]
      ]
    ]
