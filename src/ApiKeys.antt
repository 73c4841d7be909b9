-- ===== src/ApiKeys.antt =====
-- src/modules/apikeys/apikeys.service.ts: keys that a program signs in with. Raw keys are numbers,
-- and SHA-256 is the argument `hash`; dates are milliseconds.
pub mod Revocation
mod Tests
use Prim.Native.String.{String}
use webhook_backend.Prelude.{
  ℕ, suc, ◌+◌, Bool, true, false, not, ◌&&◌, Option, some, none, List, [], ◌∷◌, foldl, length,
  Collection, find_by_id, update_by_id, delete_key, find, filter, ltb, ◌==◌, if◌then◌else◌, Result,
  ok, err, Exception,
}

pub record ApiKey : Type 0 where
  pub user_id : ℕ
  pub name : String
  pub key_hash : ℕ
  pub scopes : List String
  pub expires_at : Option ℕ
  pub is_active : Bool
  pub usage_count : ℕ
  pub last_used_at : Option ℕ

pub record KeyDto : Type 0 where
  pub name : String
  pub scopes : Option (List String)
  pub expires_at : Option ℕ

abbrev pub Keys : Type 0
Keys = Collection ApiKey

-- `dto.scopes || ['read', 'write']`
abbrev pub scopes_or_default : Option (List String) → List String
scopes_or_default none = "read" ∷ "write" ∷ []
scopes_or_default (some scopes) = scopes

-- `create`, less the text of the raw key; `id` is the new document's. The raw key is a random one,
-- which the unique index on the hash lets in.
abbrev pub create : (hash : ℕ → ℕ) → (id user raw : ℕ) → KeyDto → Keys → Keys
create hash id user raw dto keys =
    (
      id,
      record {
        user_id = user;
        name = dto.name;
        key_hash = hash raw;
        scopes = scopes_or_default dto.scopes;
        expires_at = dto.expires_at;
        is_active = true;
        usage_count = 0;
        last_used_at = none;
      },
    )
    ∷ keys

-- The key of this id, if it is the user's.
abbrev pub own_key : (user : ℕ) → Option ApiKey → Result ApiKey
own_key user none = err Exception.not_found
own_key user (some k) = if k.user_id == user then ok k else err Exception.forbidden

abbrev pub deactivate : ApiKey → ApiKey
deactivate k = record k { is_active = false }

abbrev pub if_own : Result ApiKey → Keys → Keys → Result Bool × Keys
if_own (err e) changed keys = (err e, keys)
if_own (ok k) changed keys = (ok true, changed)

-- `revoke`
pub revoke : (user id : ℕ) → Keys → Result Bool × Keys
revoke user id keys =
    if_own (own_key user (find_by_id id keys)) (update_by_id id deactivate keys) keys

-- `delete`
pub delete : (user id : ℕ) → Keys → Result Bool × Keys
delete user id keys = if_own (own_key user (find_by_id id keys)) (delete_key id keys) keys

abbrev pub has_expired : (now : ℕ) → Option ℕ → Bool
has_expired now none = false
has_expired now (some t) = ltb t now

abbrev pub count_use : (now : ℕ) → ApiKey → ApiKey
count_use now k = record k { usage_count = suc k.usage_count; last_used_at = some now }

abbrev pub use_key : (now : ℕ) → Option (ℕ × ApiKey) → Keys → Option (ℕ × ApiKey) × Keys
use_key now none keys = (none, keys)
use_key now (some (id, k)) keys =
    if has_expired now k.expires_at
    then (none, update_by_id id deactivate keys)
    else (some (id, k), update_by_id id (count_use now) keys)

abbrev pub is_match : (key_hash : ℕ) → ℕ × ApiKey → Bool
is_match h d = d.1.key_hash == h && d.1.is_active

-- `validateKey`, with the document's id
pub validate_key : (hash : ℕ → ℕ) → (raw now : ℕ) → Keys → Option (ℕ × ApiKey) × Keys
validate_key hash raw now keys = use_key now (find (is_match (hash raw)) keys) keys

pub record Stats : Type 0 where
  pub total : ℕ
  pub active : ℕ
  pub expired : ℕ
  pub total_usage : ℕ

-- `getStats`
pub get_stats : (user now : ℕ) → Keys → Stats
get_stats user now keys =
    let own = filter (λ (d : ℕ × ApiKey). d.1.user_id == user) keys in
    record {
      total = length own;
      active = length (filter (λ (d : ℕ × ApiKey). d.1.is_active) own);
      expired = length (filter (λ (d : ℕ × ApiKey). has_expired now d.1.expires_at) own);
      total_usage = foldl (λ n (d : ℕ × ApiKey). n + d.1.usage_count) 0 own;
    }
