-- ===== src/Tunnel/Tests.antt =====
-- A store with one tunnel that nobody is connected to.
use webhook_backend.Prelude.{◌≡◌, refl, none, true, false, [], ◌∷◌}
use webhook_backend.Tunnel.{Store, forward, register}

abbrev store : Store
store = record {
  sessions = [];
  meta = (4, record { user_id = 1; created_at = 100; forwarded = 0; last_event_at = none }) ∷ [];
}

-- Nothing is forwarded before the tunnel is connected.
forward-store : (forward 4 900 store).0 ≡ false
unfolding forward
forward-store = refl

forward-registered : (forward 4 900 (register 4 store)).0 ≡ true
unfolding forward register
forward-registered = refl
