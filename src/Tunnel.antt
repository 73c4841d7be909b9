-- ===== src/Tunnel.antt =====
-- src/modules/tunnel/tunnel.service.ts: tunnels to a developer's machine. The two maps are lists in
-- the order in which the keys were set; a session is its `writableEnded`.
pub mod Capacity
mod Tests
use webhook_backend.Prelude.{
  ℕ, suc, ◌+◌, ◌-◌, ◌≤◌, Bool, true, false, not, ◌&&◌, Option, some, none, List, [], ◌∷◌, ◌++◌,
  length, Collection, find_by_id, delete_key, update_by_id, is_some, ltb, leb, ◌==◌, if◌then◌else◌,
  filter,
}

pub record TunnelMeta : Type 0 where
  pub user_id : ℕ
  pub created_at : ℕ
  pub forwarded : ℕ
  pub last_event_at : Option ℕ

pub record Store : Type 0 where
  pub sessions : Collection Bool
  pub meta : Collection TunnelMeta

abbrev pub max_tunnels : ℕ
max_tunnels = 500

abbrev pub tunnel_ttl_ms : ℕ
tunnel_ttl_ms = 3_600_000

-- `map.set(k, v)`
abbrev pub set_key {ℓ} : {V : Type ℓ} → ℕ → V → Collection V → Collection V
set_key k v c = if is_some (find_by_id k c) then update_by_id k (λ _. v) c else c ++ (k, v) ∷ []

abbrev pub is_open : Option Bool → Bool
is_open none = false
is_open (some ended) = not ended

-- `isActive`
abbrev pub is_active : Store → ℕ → Bool
is_active s id = is_open (find_by_id id s.sessions)

-- `register`, and the `close` of its response
pub register : ℕ → Store → Store
register id s = record s { sessions = set_key id false s.sessions }

pub close : ℕ → Store → Store
close id s = record s { sessions = delete_key id s.sessions }

abbrev pub count_forward : (now : ℕ) → TunnelMeta → TunnelMeta
count_forward now m = record m { forwarded = suc m.forwarded; last_event_at = some now }

-- `forward`, less the text that is written
pub forward : (id now : ℕ) → Store → Bool × Store
forward id now s =
    if is_active s id
    then (true, record s { meta = update_by_id id (count_forward now) s.meta })
    else (false, record s { sessions = delete_key id s.sessions })

-- `deleteTunnel`
abbrev pub delete_tunnel : ℕ → Store → Store
delete_tunnel id s = record { sessions = delete_key id s.sessions; meta = delete_key id s.meta }

abbrev pub is_stale : (now : ℕ) → Store → ℕ × TunnelMeta → Bool
is_stale now s (id, m) = ltb tunnel_ttl_ms (now - m.created_at) && not (is_active s id)

-- The loop of `cleanupExpiredTunnels` over the entries.
abbrev pub clean_each : (now : ℕ) → Collection TunnelMeta → Store → Store
clean_each now [] s = s
clean_each now (e ∷ entries) s =
    let s' = if is_stale now s e then delete_tunnel e.0 s else s in clean_each now entries s'

-- `cleanupExpiredTunnels`
abbrev pub cleanup_expired_tunnels : (now : ℕ) → Store → Store
cleanup_expired_tunnels now s = clean_each now s.meta s

-- The first tunnel that is not active goes.
abbrev pub evict : Collection TunnelMeta → Store → Store
evict [] s = s
evict ((id, m) ∷ entries) s = if is_active s id then evict entries s else delete_tunnel id s

abbrev pub is_full : Store → Bool
is_full s = leb max_tunnels (length s.meta)

abbrev pub make_room : (now : ℕ) → Store → Store
make_room now s =
    let cleaned = cleanup_expired_tunnels now s in
    if is_full s then (if is_full cleaned then evict cleaned.meta cleaned else cleaned) else s

-- `createTunnel`; `id` is the random one.
pub create_tunnel : (id user now : ℕ) → Store → Store
create_tunnel id user now s =
    let roomy = make_room now s in
    record roomy {
      meta =
          set_key id
            (record { user_id = user; created_at = now; forwarded = 0; last_event_at = none })
            roomy.meta;
    }
