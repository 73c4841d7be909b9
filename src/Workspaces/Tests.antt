-- ===== src/Workspaces/Tests.antt =====
-- A workspace of two.
use webhook_backend.Prelude.{◌≡◌, refl, true, false, [], ◌∷◌, arith}
use webhook_backend.Workspaces.{
  owner, admin, developer, Store, Outside, invite, find_one, find_managed, enforce_enterprise_plan,
}
use webhook_backend.Workspaces.Membership.{HasOwners}
use webhook_backend.Workspaces.Invitations.{new_invite, invite_without_limit}

abbrev out : Outside
out = record { to_lower_case = λ s. s; hash_otp = λ s. s }

-- User 1 owns workspace 5, user 2 is an admin of it; its team may have three members.
abbrev store : Store
store = record {
  workspaces =
      (
        5,
        record {
          owner_id = 1;
          members =
              (record { user_id = 1; role = owner }) ∷ (record { user_id = 2; role = admin }) ∷ [];
          is_active = true;
        },
      )
      ∷ [];
  invites = [];
  users = (1, record { email = "a@x.org"; plan = "enterprise" }) ∷ [];
  team_members_limits = (1, 3) ∷ [];
}

-- The same without a limit.
abbrev unlimited_store : Store
unlimited_store = record store { team_members_limits = [] }

unlimited-HasOwners : HasOwners unlimited_store
unlimited-HasOwners id ws found = ground arith

invite_without_limit_example :
    (invite out 5 1 "b@x.org" developer false 9 8 "t" "o" unlimited_store).1 ≡ unlimited_store
invite_without_limit_example =
    invite_without_limit out 5 1 "b@x.org" developer 9 8 "t" "o" unlimited_store unlimited-HasOwners
      refl

-- With a limit of three the invitation is stored.
invites_a_third :
    (invite out 5 2 "b@x.org" developer false 9 8 "t" "o" store).1.invites
    ≡ (8, new_invite out 5 "b@x.org" developer 9 "t" "o") ∷ []
unfolding invite find_managed find_one enforce_enterprise_plan
invites_a_third = refl
