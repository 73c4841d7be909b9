-- ===== src/Projects/Tests.antt =====
-- A project of user 1 with a viewer, user 2, who owns a workspace with user 3 in it.
use webhook_backend.Prelude.{◌≡◌, ◌↔◌, refl, true, false, some, none, [], ◌∷◌, ok}
use webhook_backend.Workspaces.{owner, admin, viewer, Workspace}
use webhook_backend.Projects.{
  Project, Store, new_project, find_one, resolve_role, UpdateDto, update, remove_member,
}
use webhook_backend.Projects.Access.{HasRole, find_one_iff, update_lends_role}

abbrev project : Project
project = record (new_project 1 none) { members = (record { user_id = 2; role = viewer }) ∷ [] }

abbrev workspace : Workspace
workspace = record {
  owner_id = 2;
  members = (record { user_id = 2; role = owner }) ∷ (record { user_id = 3; role = admin }) ∷ [];
  is_active = true;
}

abbrev store : Store
store = record { projects = (7, project) ∷ []; workspaces = (5, workspace) ∷ [] }

-- The viewer links it to the workspace.
abbrev linking : UpdateDto
linking = record { max_retry_attempts = none; default_timeout_ms = none; workspace_id = some 5 }

find_one_iff_example :
    ((p : Project) × (find_one 7 2 false store ≡ (ok p, store))) ↔ HasRole 7 2 store
find_one_iff_example = find_one_iff 7 2 store

resolve_role-stranger : resolve_role 7 3 store ≡ none
unfolding resolve_role
resolve_role-stranger = refl

role_of_viewer : resolve_role 7 2 store ≡ some viewer
unfolding resolve_role
role_of_viewer = refl

update_lends_role_example : resolve_role 7 3 (update 7 2 linking false store).1 ≡ some admin
update_lends_role_example =
    update_lends_role 7 2 3 5 linking store refl role_of_viewer refl refl refl refl refl refl

removed : (remove_member 7 1 2 false store).0 ≡ ok tt
unfolding remove_member find_one
removed = refl
