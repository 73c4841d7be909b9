-- ===== src/Permissions/Tests.antt =====
-- A project with one custom role.
use webhook_backend.Prelude.{
  ◌≡◌, ◌↔◌, refl, true, false, some, none, [], ◌∷◌, find_by_id, ok, arith,
}
use webhook_backend.Permissions.{events, read}
use webhook_backend.Permissions.Service.{
  CustomRole, Store, custom, UpdateDto, has_custom_role_permission, active_permissions,
  update_custom_role_with, update_custom_role,
}
use webhook_backend.Permissions.Cache.{
  updates, deletes, asks, answers, reference_answers, IsCoherent, answers_refine,
  asked_during_update, question,
}
use webhook_backend.Permissions.Guard.{
  Request, Requirement, can_activate, MayPass, can_activate_iff,
}

abbrev ops_role : CustomRole
ops_role = record {
  name = "ops";
  description = none;
  project_id = some 1;
  workspace_id = none;
  permissions = "events:read" ∷ "dlq:read" ∷ [];
  created_by = 2;
  is_active = true;
  color = none;
}

abbrev store : Store
store = record { custom_roles = (7, ops_role) ∷ []; role_cache = [] }

-- It loses all but the dead letters.
abbrev narrowed : UpdateDto
narrowed = record {
  name = none;
  description = none;
  permissions = some ("dlq:read" ∷ []);
  color = none;
}

store-IsCoherent : IsCoherent store
store-IsCoherent id perms cached = ground arith

answers_refine_example :
    answers
      (λ n. n)
      (asks 7 "events:read" ∷ updates 7 1 narrowed ∷ asks 7 "events:read" ∷ deletes 7 1 ∷ [])
      store
    ≡ reference_answers
        (λ n. n)
        (asks 7 "events:read" ∷ updates 7 1 narrowed ∷ asks 7 "events:read" ∷ deletes 7 1 ∷ [])
        store.custom_roles
answers_refine_example =
    answers_refine (λ n. n)
      (asks 7 "events:read" ∷ updates 7 1 narrowed ∷ asks 7 "events:read" ∷ deletes 7 1 ∷ []) store
      store-IsCoherent

-- The change is seen.
answers-store :
    answers (λ n. n) (asks 7 "events:read" ∷ updates 7 1 narrowed ∷ asks 7 "events:read" ∷ []) store
    ≡ ok true ∷ ok true ∷ ok false ∷ []
unfolding update_custom_role update_custom_role_with
answers-store = refl

asked_during_update_example :
    let (r, s') = update_custom_role_with (question 7 "dlq:read") 7 1 narrowed store in
    (r ≡ ok tt)
    × (active_permissions (find_by_id 7 s'.custom_roles) ≡ some ("dlq:read" ∷ []))
    × ((has_custom_role_permission 7 "events:read" s').0 ≡ ok true)
asked_during_update_example =
    asked_during_update 7 1 "dlq:read" "events:read" ("dlq:read" ∷ []) narrowed store refl refl refl
      refl refl

abbrev request : Request
request = record {
  user = some (record { is_super_admin = false });
  project_role = some (custom 7);
  workspace_role = none;
}

abbrev read_events : Requirement
read_events = record { resource = events; action = read }

can_activate_iff_example :
    ((can_activate (some read_events) none request store).0 ≡ ok true)
    ↔ MayPass read_events request store
can_activate_iff_example = can_activate_iff read_events none request store store-IsCoherent
