-- ===== src/Permissions/Cache.antt =====
-- The cache of src/modules/permissions/permissions.service.ts: within one process, and with each
-- operation run to its end before the next, nobody can tell that it is there.
use Prim.Native.String.{String}
use webhook_backend.Prelude.{
  ℕ, ◌≡◌, inl, inr, refl, ap, ◌∙◌, Bool, true, false, ◌||◌, some, List, [], ◌∷◌, Collection,
  find_by_id, find_by_id-delete_key, delete_key, update_by_id, upsert_by_id, find_by_id-update_self,
  find_by_id-upsert, find_by_id-update, ◌==◌, is_some, Result, ok, err, Action, pure, ◌>>=◌, arith,
  Bool-cases, Option-cases,
}
use webhook_backend.Permissions.{includes}
use webhook_backend.Permissions.Service.{
  CustomRole, Store, custom, CreateDto, UpdateDto, active_permissions, has_custom_role_permission,
  get_permissions, is_valid, is_reserved, is_taken, new_role, create_custom_role, role_of_project,
  are_valid, write_taken, write_role, apply_updates, is_role_of, update_custom_role,
  update_custom_role_with, delete_custom_role,
}

-- A call of the service.
pub data Call : Type 0 where
  creates : (id project : ℕ) → CreateDto → (user : ℕ) → Call
  updates : (id project : ℕ) → UpdateDto → Call
  deletes : (id project : ℕ) → Call
  asks : (id : ℕ) → (p : String) → Call

-- A change that is made answers `true`.
abbrev pub done : Result (Unit {0}) → Result Bool
done (ok u) = ok true
done (err e) = err e

-- A call, with its answer.
abbrev pub call : (to_lower_case : String → String) → Call → Action Store Bool
call lower (creates id project dto user) s =
    let (r, s') = create_custom_role lower id project dto user s in (done r, s')
call lower (updates id project dto) s =
    let (r, s') = update_custom_role id project dto s in (done r, s')
call lower (deletes id project) s = let (r, s') = delete_custom_role id project s in (done r, s')
call lower (asks id p) s = has_custom_role_permission id p s

abbrev pub uncached : Collection CustomRole → Store
uncached roles = record { custom_roles = roles; role_cache = [] }

-- The same calls on the stored roles alone: a question is answered by `getPermissions`.
abbrev pub reference :
    (to_lower_case : String → String)
    → Call
    → Collection CustomRole
    → Result Bool × Collection CustomRole
reference lower (asks id p) roles =
    (ok (includes p (get_permissions (custom id) (uncached roles))), roles)
reference lower c roles = let (r, s') = call lower c (uncached roles) in (r, s'.custom_roles)

-- The answers of a list of calls.
abbrev pub answers : (to_lower_case : String → String) → List Call → Store → List (Result Bool)
answers lower [] s = []
answers lower (c ∷ cs) s = (call lower c s).0 ∷ answers lower cs (call lower c s).1

abbrev pub reference_answers :
    (to_lower_case : String → String) → List Call → Collection CustomRole → List (Result Bool)
reference_answers lower [] roles = []
reference_answers lower (c ∷ cs) roles =
    (reference lower c roles).0 ∷ reference_answers lower cs (reference lower c roles).1

-- What is cached is what the stored role, an active one, says.
abbrev pub IsCoherent : Store → Type 0
IsCoherent s =
    (id : ℕ) (perms : List String)
    → find_by_id id s.role_cache ≡ some perms
    → active_permissions (find_by_id id s.custom_roles) ≡ some perms

-- Forgetting a role whose document changes keeps the cache right.
forget_and_change :
    (id : ℕ) (f : CustomRole → CustomRole) (s : Store)
    → IsCoherent s
    → IsCoherent (record {
      custom_roles = update_by_id id f s.custom_roles;
      role_cache = delete_key id s.role_cache;
    })
forget_and_change id f s h k perms cached = elim (Bool-cases (id == k)) [
  | inl here ↦ absurd (ground (arith, find_by_id-delete_key id k s.role_cache))
  | inr there ↦ ground (
    arith,
    find_by_id-delete_key id k s.role_cache,
    h k perms,
    find_by_id-update id k f s.custom_roles,
  )
]

forget-IsCoherent :
    (id : ℕ) (s : Store)
    → IsCoherent s
    → IsCoherent (record s { role_cache = delete_key id s.role_cache })
forget-IsCoherent id s h k perms cached = elim (Bool-cases (id == k)) [
  | inl here ↦ absurd (ground (arith, find_by_id-delete_key id k s.role_cache))
  | inr there ↦ ground (arith, find_by_id-delete_key id k s.role_cache, h k perms)
]

create-lem :
    (lower : String → String) (id project : ℕ) (dto : CreateDto) (user : ℕ) (s : Store)
    → let t = create_custom_role lower id project dto user s in
      let u = create_custom_role lower id project dto user (uncached s.custom_roles) in
      (t.0 ≡ u.0) × (t.1.custom_roles ≡ u.1.custom_roles) × (IsCoherent s → IsCoherent t.1)
unfolding create_custom_role
create-lem lower id project dto user s = elim (Bool-cases (is_valid dto.permissions)) [
  | inr invalid ↦ (ground arith, ground arith, λ h k perms cached. ground (arith, h k perms))
  | inl valid ↦ elim (Bool-cases (is_reserved (lower dto.name))) [
    | inl reserved ↦ (ground arith, ground arith, λ h k perms cached. ground (arith, h k perms))
    | inr fine ↦
        elim (Bool-cases (
          is_some (find_by_id id s.custom_roles)
          || is_taken id (new_role dto project user) s.custom_roles)) [
            | inl taken ↦
                (ground arith, ground arith, λ h k perms cached. ground (arith, h k perms))
            | inr fresh ↦
                (ground arith, ground arith, λ h k perms cached. ground (arith, h k perms))
          ]
  ]
]

update-lem :
    (id project : ℕ) (dto : UpdateDto) (s : Store)
    → let t = update_custom_role id project dto s in
      let u = update_custom_role id project dto (uncached s.custom_roles) in
      (t.0 ≡ u.0) × (t.1.custom_roles ≡ u.1.custom_roles) × (IsCoherent s → IsCoherent t.1)
unfolding update_custom_role update_custom_role_with write_role
update-lem id project dto s =
    elim (Option-cases (role_of_project project (find_by_id id s.custom_roles))) [
      | inl absent ↦ (ground arith, ground arith, λ h k perms cached. ground (arith, h k perms))
      | inr (role, found) ↦ elim (Bool-cases (are_valid dto.permissions)) [
        | inr invalid ↦ (ground arith, ground arith, λ h k perms cached. ground (arith, h k perms))
        | inl valid ↦
            elim (Bool-cases (write_taken id dto (find_by_id id s.custom_roles) s.custom_roles)) [
              | inl taken ↦ (
                ground arith,
                ground arith,
                λ h k perms cached. ground (arith, forget-IsCoherent id s h k perms),
              )
              | inr fine ↦ (
                ground arith,
                ground arith,
                λ h k perms cached.
                    ground (arith, forget_and_change id (apply_updates dto) s h k perms),
              )
            ]
      ]
    ]

delete-lem :
    (id project : ℕ) (s : Store)
    → let t = delete_custom_role id project s in
      let u = delete_custom_role id project (uncached s.custom_roles) in
      (t.0 ≡ u.0) × (t.1.custom_roles ≡ u.1.custom_roles) × (IsCoherent s → IsCoherent t.1)
unfolding delete_custom_role
delete-lem id project s =
    elim (Option-cases (role_of_project project (find_by_id id s.custom_roles))) [
      | inl absent ↦ (ground arith, ground arith, λ h k perms cached. ground (arith, h k perms))
      | inr (role, found) ↦ (
        ground arith,
        ground arith,
        λ h k perms cached.
            ground (arith, forget_and_change id (λ r. record r { is_active = false }) s h k perms),
      )
    ]

pub ask-lem :
    (id : ℕ) (p : String) (s : Store)
    → IsCoherent s
    → let t = has_custom_role_permission id p s in
      (t.0 ≡ ok (includes p (get_permissions (custom id) s)))
      × (t.1.custom_roles ≡ s.custom_roles)
      × IsCoherent t.1
ask-lem id p s h = elim (Option-cases (find_by_id id s.role_cache)) [
  | inr (perms, cached) ↦
      (ground (arith, h id perms), ground arith, λ k qs e. ground (arith, h k qs))
  | inl absent ↦ elim (Option-cases (active_permissions (find_by_id id s.custom_roles))) [
    | inl gone ↦ (ground arith, ground arith, λ k qs e. ground (arith, h k qs))
    | inr (perms, found) ↦ (
      ground arith,
      ground arith,
      λ k qs e. ground (arith, h k qs, find_by_id-upsert id k (λ _. perms) [] s.role_cache),
    )
  ]
]

-- One call answers what the reference does, leaves the same roles, and keeps the cache right.
call_refines :
    (lower : String → String) (c : Call) (s : Store)
    → IsCoherent s
    → ((call lower c s).0 ≡ (reference lower c s.custom_roles).0)
      × ((call lower c s).1.custom_roles ≡ (reference lower c s.custom_roles).1)
      × IsCoherent (call lower c s).1
call_refines lower (creates id project dto user) s h =
    let (same, roles, keeps) = create-lem lower id project dto user s in
    (ap done same, roles, keeps h)
call_refines lower (updates id project dto) s h =
    let (same, roles, keeps) = update-lem id project dto s in (ap done same, roles, keeps h)
call_refines lower (deletes id project) s h =
    let (same, roles, keeps) = delete-lem id project s in (ap done same, roles, keeps h)
call_refines lower (asks id p) s h =
    let (same, roles, keeps) = ask-lem id p s h in (same, roles, keeps)

-- Whatever the calls, in their order, from a store whose cache agrees with it (the empty cache of a
-- new process, say): the answers are those that the stored roles alone give, so a changed or a
-- deleted role is never answered from what was cached before.
pub answers_refine :
    (lower : String → String) (cs : List Call) (s : Store)
    → IsCoherent s
    → answers lower cs s ≡ reference_answers lower cs s.custom_roles
answers_refine lower [] s h = refl
answers_refine lower (c ∷ cs) s h =
    let (same, roles, keeps) = call_refines lower c s h in
    ap (λ r. r ∷ answers lower cs (call lower c s).1) same
    ∙ ap (λ rest. (reference lower c s.custom_roles).0 ∷ rest)
        (answers_refine lower cs (call lower c s).1 keeps ∙ ap (reference_answers lower cs) roles)

-- A question, as another request asks it.
abbrev pub question : (id : ℕ) → (p : String) → Action Store (Unit {0})
question id p = do asked ← has_custom_role_permission id p; pure tt

-- When another request asks about an active role of the project while `updateCustomRole` waits for
-- its write, with permissions that are valid and a name that is free, the update succeeds and the
-- stored role has the new permissions, but the cache then answers by the old ones.
pub asked_during_update :
    (id project : ℕ) (p q : String) (perms : List String) (dto : UpdateDto) (s : Store)
    {role : CustomRole}
    → find_by_id id s.custom_roles ≡ some role
    → is_role_of project role ≡ true
    → dto.permissions ≡ some perms
    → is_valid perms ≡ true
    → write_taken id dto (some role) s.custom_roles ≡ false
    → let (r, s') = update_custom_role_with (question id p) id project dto s in
      (r ≡ ok tt)
      × (active_permissions (find_by_id id s'.custom_roles) ≡ some perms)
      × ((has_custom_role_permission id q s').0 ≡ ok (includes q role.permissions))
unfolding update_custom_role_with write_role
asked_during_update id project p q perms dto s {role} found mine named valid fine =
    let after : Store = record {
      custom_roles = update_by_id id (apply_updates dto) s.custom_roles;
      role_cache = upsert_by_id id (λ _. role.permissions) [] (delete_key id s.role_cache);
    } in
    let runs : update_custom_role_with (question id p) id project dto s ≡ (ok tt, after) =
      ground (arith, find_by_id-delete_key id id s.role_cache) in
    (
      ap (λ r. r.0) runs,
      ap (λ r. active_permissions (find_by_id id r.1.custom_roles)) runs
          ∙ ground (arith, find_by_id-update_self id (apply_updates dto) s.custom_roles found),
      ap (λ r. (has_custom_role_permission id q r.1).0) runs
          ∙ ground (
            arith,
            find_by_id-upsert id id (λ _. role.permissions) [] (delete_key id s.role_cache),
          ),
    )
