-- ===== src/Delivery/Retry/Tests.antt =====
-- The retry delays at concrete attempts.
use webhook_backend.Prelude.{◌≡◌, refl}
use webhook_backend.Delivery.Documents.{exponential}
use webhook_backend.Delivery.Retry.{strategy_delay_secs}

backoff : strategy_delay_secs exponential 3 60 ≡ 240
unfolding strategy_delay_secs
backoff = refl
