-- ===== src/Billing/Trial/Tests.antt =====
-- The theorems on trials and access at concrete subscriptions.
use webhook_backend.Prelude.{◌≡◌, ◌↔◌, ◌+◌, ◌*◌, refl, true, some, [], ◌∷◌}
use webhook_backend.Billing.Documents.{Db, Subscription, active}
use webhook_backend.Billing.Trial.{
  allow, is_allowed, day_ms, expire_stale_subscriptions, trial_ended, new_trial,
}
use webhook_backend.Billing.Trial.Access.{HasAccess, is_allowed_iff}

abbrev paid : Subscription
paid = record (new_trial 0) { status = active; current_period_end = some 100 }

abbrev db : Db
db = record {
  subscriptions = (1, paid) ∷ [];
  users = [];
  packages = [];
  balances = [];
  transactions = [];
  invoices = [];
  audit = [];
}

is_allowed_iff_example : (allow.allowed ≡ true) ↔ HasAccess active paid 100
unfolding is_allowed
is_allowed_iff_example = is_allowed_iff 1 100 db refl refl

-- A trial that ended half an hour ago is expired and its user told.
ended_half_an_hour_ago :
    (expire_stale_subscriptions
      (10 * day_ms + 1_800_000)
      (λ u. true)
      (record db { subscriptions = (1, new_trial 0) ∷ [] })).0
    ≡ trial_ended 1 ∷ []
unfolding expire_stale_subscriptions
ended_half_an_hour_ago = refl
