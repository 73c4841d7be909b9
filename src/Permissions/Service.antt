-- ===== src/Permissions/Service.antt =====
-- src/modules/permissions/permissions.service.ts: built-in and custom roles, and the process's
-- cache of the custom ones. The unique indexes of custom-role.schema.ts refuse a second role of the
-- same name for a project or for a workspace; this service leaves `workspaceId` at `null`, which
-- the index keeps like any other value.
use Prim.Native.String.{String}
use text.Mathlib.Text.{◌==◌ as str_eq}
use webhook_backend.Prelude.{
  ℕ, Bool, true, false, not, ◌&&◌, ◌||◌, Option, some, none, List, [], ◌∷◌, filter, all, Collection,
  find_by_id, delete_key, update_by_id, upsert_by_id, find_many, nullish_or, ◌==◌, is_some,
  if◌then◌else◌, Exception, Action, throw_if, or_throw, gets, modify, pure, ◌>>=◌, ◌>>◌,
}
use webhook_backend.Permissions.{
  Resource, ResourceAction, ProjectRole, permission, role_permissions, all_permissions, includes,
}

-- A document of custom-role.schema.ts
pub record CustomRole : Type 0 where
  pub name : String
  pub description : Option String
  pub project_id : Option ℕ
  pub workspace_id : Option ℕ
  pub permissions : List String
  pub created_by : ℕ
  pub is_active : Bool
  pub color : Option String

-- `role_cache` maps an id to the set of the role's permissions.
pub record Store : Type 0 where
  pub custom_roles : Collection CustomRole
  pub role_cache : Collection (List String)

-- The `role` of a caller: a value of `ProjectRole`, or the id of a custom role.
pub data RoleName : Type 0 where
  project_role : ProjectRole → RoleName
  custom : ℕ → RoleName

pub record CreateDto : Type 0 where
  pub name : String
  pub description : Option String
  pub permissions : List String
  pub color : Option String

pub record UpdateDto : Type 0 where
  pub name : Option String
  pub description : Option String
  pub permissions : Option (List String)
  pub color : Option String

abbrev pub active_permissions : Option CustomRole → Option (List String)
active_permissions none = none
active_permissions (some role) = if role.is_active then some role.permissions else none

-- `!role || !role.isActive` answers false, else the set is kept and asked.
abbrev pub cache_and_ask : ℕ → String → Option (List String) → Action Store Bool
cache_and_ask id p none = pure false
cache_and_ask id p (some perms) = do
  modify (λ s. record s { role_cache = upsert_by_id id (λ _. perms) [] s.role_cache })
  pure (includes p perms)

abbrev pub cached_or_ask : ℕ → String → Option (List String) → Action Store Bool
cached_or_ask id p (some perms) = pure (includes p perms)
cached_or_ask id p none = do
  role ← gets (λ s. find_by_id id s.custom_roles)
  cache_and_ask id p (active_permissions role)

-- `hasCustomRolePermission`
abbrev pub has_custom_role_permission : ℕ → String → Action Store Bool
has_custom_role_permission id p = do
  cached ← gets (λ s. find_by_id id s.role_cache)
  cached_or_ask id p cached

-- `hasPermission`
abbrev pub has_permission : RoleName → Resource → ResourceAction → Action Store Bool
has_permission (project_role role) r a = pure (includes (permission r a) (role_permissions role))
has_permission (custom id) r a = has_custom_role_permission id (permission r a)

-- `checkPermission`
unfoldable pub check_permission : RoleName → Resource → ResourceAction → Action Store (Unit {0})
check_permission role r a = do
  allowed ← has_permission role r a
  throw_if (not allowed) Exception.forbidden

-- `getPermissions`
abbrev pub get_permissions : RoleName → Store → List String
get_permissions (project_role role) s = role_permissions role
get_permissions (custom id) s = nullish_or (active_permissions (find_by_id id s.custom_roles)) []

abbrev pub is_valid : List String → Bool
is_valid perms = all (λ p. includes p all_permissions) perms

-- `reserved.includes(dto.name.toLowerCase())`
abbrev pub is_reserved : String → Bool
is_reserved name = includes name ("owner" ∷ "admin" ∷ "developer" ∷ "viewer" ∷ [])

abbrev pub same_id : Option ℕ → Option ℕ → Bool
same_id none none = true
same_id (some i) (some j) = i == j
same_id none (some j) = false
same_id (some i) none = false

-- `uq_project_role_name` and `uq_workspace_role_name`: one of them holds the two documents equal.
abbrev pub is_same_key : CustomRole → CustomRole → Bool
is_same_key new old =
    str_eq old.name new.name
    && (same_id old.project_id new.project_id || same_id old.workspace_id new.workspace_id)

-- Whether another document has the key of the document `id`, which becomes `new`.
abbrev pub is_taken : ℕ → CustomRole → Collection CustomRole → Bool
is_taken id new [] = false
is_taken id new ((j, old) ∷ roles) = (not (j == id) && is_same_key new old) || is_taken id new roles

-- `dto.x || null`
abbrev pub text_or_null : Option String → Option String
text_or_null none = none
text_or_null (some t) = if str_eq t "" then none else some t

abbrev pub new_role : CreateDto → (project user : ℕ) → CustomRole
new_role dto project user = record {
  name = dto.name;
  description = text_or_null dto.description;
  project_id = some project;
  workspace_id = none;
  permissions = dto.permissions;
  created_by = user;
  is_active = true;
  color = text_or_null dto.color;
}

-- `createCustomRole`; `id` is the new document's, and a repeated id is refused like a repeated
-- name.
unfoldable pub create_custom_role :
    (to_lower_case : String → String)
    → (id project : ℕ) → CreateDto
    → (user : ℕ) → Action Store (Unit {0})
create_custom_role to_lower_case id project dto user = do
  throw_if (not (is_valid dto.permissions)) Exception.bad_request
  throw_if (is_reserved (to_lower_case dto.name)) Exception.bad_request
  taken ← gets (λ s.
      is_some (find_by_id id s.custom_roles)
      || is_taken id (new_role dto project user) s.custom_roles)
  throw_if taken Exception.duplicate_key
  modify (λ s. record s { custom_roles = (id, new_role dto project user) ∷ s.custom_roles })

abbrev pub is_role_of : ℕ → CustomRole → Bool
is_role_of project role = same_id role.project_id (some project) && role.is_active

-- `findOne({ _id: id, projectId, isActive: true })`
abbrev pub role_of_project : ℕ → Option CustomRole → Option CustomRole
role_of_project project none = none
role_of_project project (some role) = if is_role_of project role then some role else none

-- `listCustomRoles`, less the order
abbrev pub list_custom_roles : ℕ → Store → Collection CustomRole
list_custom_roles project s = find_many (is_role_of project) s.custom_roles

-- `getCustomRole`
abbrev pub get_custom_role : (id project : ℕ) → Action Store CustomRole
get_custom_role id project = do
  found ← gets (λ s. find_by_id id s.custom_roles)
  or_throw (role_of_project project found) Exception.not_found

-- `if (dto.permissions)` and the check of them
abbrev pub are_valid : Option (List String) → Bool
are_valid none = true
are_valid (some perms) = is_valid perms

-- `if (dto.name) updates.name = dto.name`
abbrev pub name_or : Option String → String → String
name_or dto old = nullish_or (text_or_null dto) old

-- `if (dto.x !== undefined) updates.x = dto.x`
abbrev pub text_or : Option String → Option String → Option String
text_or none old = old
text_or (some t) old = some t

abbrev pub apply_updates : UpdateDto → CustomRole → CustomRole
apply_updates dto role = record role {
  name = name_or dto.name role.name;
  description = text_or dto.description role.description;
  permissions = nullish_or dto.permissions role.permissions;
  color = text_or dto.color role.color;
}

-- `this.roleCache.delete(id)`
abbrev pub forget_role : ℕ → Action Store (Unit {0})
forget_role id = modify (λ s. record s { role_cache = delete_key id s.role_cache })

abbrev pub write_taken : ℕ → UpdateDto → Option CustomRole → Collection CustomRole → Bool
write_taken id dto none roles = false
write_taken id dto (some role) roles = is_taken id (apply_updates dto role) roles

-- `findByIdAndUpdate(id, updates)`
unfoldable pub write_role : ℕ → UpdateDto → Action Store (Unit {0})
write_role id dto = do
  taken ← gets (λ s. write_taken id dto (find_by_id id s.custom_roles) s.custom_roles)
  throw_if taken Exception.duplicate_key
  modify (λ s. record s { custom_roles = update_by_id id (apply_updates dto) s.custom_roles })

-- `updateCustomRole`; `between` is what other requests do while `findByIdAndUpdate` is awaited.
unfoldable pub update_custom_role_with :
    (between : Action Store (Unit {0})) → (id project : ℕ) → UpdateDto → Action Store (Unit {0})
unfolding write_role
update_custom_role_with between id project dto = do
  role ← get_custom_role id project
  throw_if (not (are_valid dto.permissions)) Exception.bad_request
  forget_role id
  between
  write_role id dto

-- The same without other requests.
unfoldable pub update_custom_role : (id project : ℕ) → UpdateDto → Action Store (Unit {0})
unfolding update_custom_role_with
update_custom_role id project dto = update_custom_role_with (pure tt) id project dto

-- `deleteCustomRole`
unfoldable pub delete_custom_role : (id project : ℕ) → Action Store (Unit {0})
delete_custom_role id project = do
  role ← get_custom_role id project
  modify (λ s. record s {
    custom_roles = update_by_id id (λ r. record r { is_active = false }) s.custom_roles;
  })
  forget_role id

pub record Comparison : Type 0 where
  pub only_in_role1 : List String
  pub only_in_role2 : List String
  pub shared : List String

-- `compareRoles`; the three sets as lists
pub compare_roles : RoleName → RoleName → Store → Comparison
compare_roles role1 role2 s =
    let perms1 = get_permissions role1 s in
    let perms2 = get_permissions role2 s in
    record {
      only_in_role1 = filter (λ p. not (includes p perms2)) perms1;
      only_in_role2 = filter (λ p. not (includes p perms1)) perms2;
      shared = filter (λ p. includes p perms2) perms1;
    }
