-- ===== src/Billing/Trial.antt =====
-- trial.service.ts: the trial period, the check that every request passes, and the hourly job that
-- expires subscriptions. `now` is the time of the call.
pub mod Access
pub mod Expiry
mod Tests
use webhook_backend.Prelude.{
  ℕ, ◌+◌, ◌-◌, ◌*◌, ◌/◌, Bool, true, false, ◌&&◌, Option, some, none, List, map, pos, Collection,
  find_by_id, update_by_id, update_many, find_many, count_documents, if◌then◌else◌, ltb, leb, ◌==◌,
  Result, ok, err, Exception, Action, ◌∷◌, [], ◌++◌,
}
use webhook_backend.Billing.Documents.{
  Db, Subscription, SubscriptionStatus, status_code, has_status, trial, trial_expired, active,
  past_due, cancelled, suspended, credit_only,
}
use webhook_backend.Billing.Plans.{trial_plan}

abbrev pub day_ms : ℕ
day_ms = 86_400_000

abbrev pub hour_ms : ℕ
hour_ms = 3_600_000

abbrev pub trial_days : ℕ
trial_days = 10

-- `Math.max(0, Math.ceil((end - now) / 86_400_000))`
unfoldable pub days_until : ℕ → ℕ → ℕ
days_until end now = (end - now + (day_ms - 1)) / day_ms

-- What `startTrial` creates.
abbrev pub new_trial : ℕ → Subscription
new_trial now = record {
  plan_id = "trial";
  plan_name = "Free Trial";
  status = trial;
  trial_start_at = some now;
  trial_end_at = some (now + trial_days * day_ms);
  current_period_start = some now;
  current_period_end = some (now + trial_days * day_ms);
  last_payment_id = none;
  last_payment_at = none;
  cancelled_at = none;
  cancel_reason = none;
  auto_renew = true;
  events_per_month = pos 5_000;
  endpoints_limit = pos 5;
  retention_days = 7;
}

-- `startTrial`
unfoldable pub start_trial : ℕ → ℕ → Db → Subscription × Db
start_trial user now db = elim (find_by_id user db.subscriptions) [
  | some sub ↦ (sub, db)
  | none ↦ (new_trial now, record db { subscriptions = (user, new_trial now) ∷ db.subscriptions })
]

pub data Reason : Type 0 where
  trial_over subscription_over payment_past_due account_suspended : Reason
  subscription_cancelled : Reason

pub record Verdict : Type 0 where
  pub allowed : Bool
  pub reason : Option Reason
  pub days_left : Option ℕ

abbrev pub allow : Verdict
allow = record { allowed = true; reason = none; days_left = none }

abbrev pub deny : Reason → Verdict
deny r = record { allowed = false; reason = some r; days_left = none }

-- `date && now > date`
abbrev pub is_past : Option ℕ → ℕ → Bool
is_past none now = false
is_past (some date) now = ltb date now

abbrev pub set_status : ℕ → SubscriptionStatus → Db → Db
set_status user status db = record db {
  subscriptions = update_by_id user (λ s. record s { status = status }) db.subscriptions;
}

-- A trial that is not past its end. A trial with no end fails on `sub.trialEndAt!.getTime()`.
abbrev pub trial_verdict : Option ℕ → ℕ → Result Verdict
trial_verdict none now = err Exception.type_error
trial_verdict (some end) now =
    ok (record { allowed = true; reason = none; days_left = some (days_until end now) })

-- The `switch` of `isAllowed`, on the status of `sub`.
abbrev pub check_status : SubscriptionStatus → ℕ → ℕ → Subscription → Action Db Verdict
check_status trial user now sub db =
    if is_past sub.trial_end_at now
    then (ok (deny trial_over), set_status user trial_expired db)
    else (trial_verdict sub.trial_end_at now, db)
check_status active user now sub db =
    if is_past sub.current_period_end now
    then (ok (deny subscription_over), set_status user past_due db)
    else (ok allow, db)
check_status credit_only user now sub db = (ok allow, db)
check_status trial_expired user now sub db = (ok (deny trial_over), db)
check_status past_due user now sub db = (ok (deny payment_past_due), db)
check_status suspended user now sub db = (ok (deny account_suspended), db)
check_status cancelled user now sub db = (ok (deny subscription_cancelled), db)

-- `isAllowed`
pub is_allowed : ℕ → ℕ → Action Db Verdict
unfolding days_until
is_allowed user now db = elim (find_by_id user db.subscriptions) [
  | none ↦ (ok allow, db)
  | some sub ↦ check_status sub.status user now sub db
]

-- The filters of the two `updateMany` calls.
abbrev pub is_stale_trial : ℕ → Subscription → Bool
is_stale_trial now s = has_status s.status trial && is_past s.trial_end_at now

abbrev pub is_stale_period : ℕ → Subscription → Bool
is_stale_period now s = has_status s.status active && is_past s.current_period_end now

-- The two `updateMany` calls of `expireStaleSubscriptions`.
pub expire_stale : ℕ → Db → Db
expire_stale now db = record db {
  subscriptions =
      update_many (is_stale_period now) (λ s. record s { status = past_due })
        (update_many (is_stale_trial now) (λ s. record s { status = trial_expired })
          db.subscriptions);
}

pub data Email : Type 0 where
  trial_ended : ℕ → Email
  trial_ends_soon : ℕ → ℕ → Email

abbrev pub within : Option ℕ → (ℕ → Bool) → Bool
within none p = false
within (some date) p = p date

-- Trials that ended less than an hour ago.
abbrev pub just_expired : ℕ → Subscription → Bool
just_expired now s =
    has_status s.status trial_expired
    && within s.trial_end_at (λ e. ltb (now - hour_ms) e && ltb e now)

-- Trials that end in 25 to 72 hours.
abbrev pub soon_expiring : ℕ → Subscription → Bool
soon_expiring now s =
    has_status s.status trial
    && within s.trial_end_at (λ e. leb (now + 25 * hour_ms) e && leb e (now + 3 * day_ms))

abbrev pub ends_soon : ℕ → ℕ × Subscription → List Email
ends_soon now (user, s) = elim s.trial_end_at [
  | none ↦ []
  | some end ↦ trial_ends_soon user (days_until end now) ∷ []
]

abbrev pub emails_for {ℓ} : {A : Type ℓ} → (A → List Email) → List A → List Email
emails_for f [] = []
emails_for f (x ∷ xs) = f x ++ emails_for f xs

-- `expireStaleSubscriptions`: the emails sent, one for each user document that exists, and the
-- database afterwards.
pub expire_stale_subscriptions : ℕ → (has_user : ℕ → Bool) → Db → List Email × Db
unfolding expire_stale days_until
expire_stale_subscriptions now has_user db =
    let db' = expire_stale now db in
    let expired = count_documents (is_stale_trial now) db.subscriptions in
    let ended = if expired == 0 then [] else find_many (just_expired now) db'.subscriptions in
    let soon = find_many (soon_expiring now) db'.subscriptions in
    (
      emails_for (λ p. if has_user p.0 then trial_ended p.0 ∷ [] else []) ended
          ++ emails_for (λ p. if has_user p.0 then ends_soon now p else []) soon,
      db',
    )
