-- ===== src/Permissions.antt =====
-- src/modules/permissions/permissions.constants.ts: what a role of a project may do. A permission
-- is the text `resource:action`.
pub mod Service
pub mod Hierarchy
pub mod Cache
pub mod Guard
mod Tests
use Prim.Native.String.{String, ◌++◌ as concat}
use text.Mathlib.Text.{◌==◌ as str_eq}
use webhook_backend.Prelude.{Bool, List, [], ◌∷◌, ◌++◌, map, any}

pub data Resource : Type 0 where
  endpoints events analytics billing team projects webhooks alerts : Resource
  transformations event_catalog api_keys audit dlq portal scheduled_events settings : Resource

pub data ResourceAction : Type 0 where
  create read update delete execute : ResourceAction

pub data ProjectRole : Type 0 where
  owner admin developer viewer : ProjectRole

-- `Object.values(Resource)`
abbrev pub resources : List Resource
resources =
    endpoints ∷ events ∷ analytics ∷ billing ∷ team ∷ projects ∷ webhooks ∷ alerts ∷ transformations
    ∷ event_catalog ∷ api_keys ∷ audit ∷ dlq ∷ portal ∷ scheduled_events ∷ settings ∷ []

-- `Object.values(Action)`
abbrev pub actions : List ResourceAction
actions = create ∷ read ∷ update ∷ delete ∷ execute ∷ []

abbrev pub resource_value : Resource → String
resource_value endpoints = "endpoints"
resource_value events = "events"
resource_value analytics = "analytics"
resource_value billing = "billing"
resource_value team = "team"
resource_value projects = "projects"
resource_value webhooks = "webhooks"
resource_value alerts = "alerts"
resource_value transformations = "transformations"
resource_value event_catalog = "event_catalog"
resource_value api_keys = "api_keys"
resource_value audit = "audit"
resource_value dlq = "dlq"
resource_value portal = "portal"
resource_value scheduled_events = "scheduled_events"
resource_value settings = "settings"

abbrev pub action_value : ResourceAction → String
action_value create = "create"
action_value read = "read"
action_value update = "update"
action_value delete = "delete"
action_value execute = "execute"

abbrev pub permission : Resource → ResourceAction → String
permission r a = concat (resource_value r) (concat ":" (action_value a))

-- `.map((a) => ...)` over some actions of a resource
abbrev pub permissions_on : Resource → List ResourceAction → List String
permissions_on r allowed = map (permission r) allowed

abbrev pub all_of : List Resource → List String
all_of [] = []
all_of (r ∷ rs) = permissions_on r actions ++ all_of rs

-- `ALL_PERMISSIONS`
abbrev pub all_permissions : List String
all_permissions = all_of resources

-- `ROLE_PERMISSIONS[ProjectRole.ADMIN]`
abbrev pub admin_permissions : List String
admin_permissions =
    permissions_on endpoints actions
    ++ permissions_on events actions
    ++ permissions_on analytics (read ∷ [])
    ++ permissions_on billing (read ∷ [])
    ++ permissions_on team (read ∷ create ∷ update ∷ [])
    ++ permissions_on projects (read ∷ update ∷ [])
    ++ permissions_on webhooks (create ∷ read ∷ execute ∷ [])
    ++ permissions_on alerts (create ∷ read ∷ update ∷ delete ∷ [])
    ++ permissions_on transformations (create ∷ read ∷ update ∷ delete ∷ [])
    ++ permissions_on event_catalog (create ∷ read ∷ update ∷ delete ∷ [])
    ++ permissions_on api_keys (create ∷ read ∷ delete ∷ [])
    ++ permissions_on audit (read ∷ [])
    ++ permissions_on dlq (read ∷ execute ∷ [])
    ++ permissions_on portal (read ∷ update ∷ [])
    ++ permissions_on scheduled_events (create ∷ read ∷ update ∷ delete ∷ [])
    ++ permissions_on settings (read ∷ update ∷ [])

-- `ROLE_PERMISSIONS[ProjectRole.DEVELOPER]`
abbrev pub developer_permissions : List String
developer_permissions =
    permissions_on endpoints (create ∷ read ∷ update ∷ execute ∷ [])
    ++ permissions_on events (create ∷ read ∷ execute ∷ [])
    ++ permissions_on analytics (read ∷ [])
    ++ permissions_on webhooks (create ∷ read ∷ execute ∷ [])
    ++ permissions_on alerts (create ∷ read ∷ update ∷ [])
    ++ permissions_on transformations (create ∷ read ∷ update ∷ [])
    ++ permissions_on event_catalog (create ∷ read ∷ update ∷ [])
    ++ permissions_on api_keys (create ∷ read ∷ [])
    ++ permissions_on audit (read ∷ [])
    ++ permissions_on dlq (read ∷ execute ∷ [])
    ++ permissions_on portal (read ∷ [])
    ++ permissions_on scheduled_events (create ∷ read ∷ update ∷ [])
    ++ permissions_on settings (read ∷ [])

-- `ROLE_PERMISSIONS[ProjectRole.VIEWER]`
abbrev pub viewer_permissions : List String
viewer_permissions =
    map (λ r. permission r read)
      (endpoints ∷ events ∷ analytics ∷ webhooks ∷ alerts ∷ transformations ∷ event_catalog ∷ audit
        ∷ dlq ∷ portal ∷ scheduled_events ∷ settings ∷ [])

-- `ROLE_PERMISSIONS`
abbrev pub role_permissions : ProjectRole → List String
role_permissions owner = all_permissions
role_permissions admin = admin_permissions
role_permissions developer = developer_permissions
role_permissions viewer = viewer_permissions

-- `perms.includes(p)`, and `has` of a set of them.
abbrev pub includes : String → List String → Bool
includes p perms = any (λ q. str_eq q p) perms
