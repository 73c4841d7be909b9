-- ===== src/Billing/Trial/Expiry.antt =====
-- The hourly job and the check on each request agree, and access that has ended stays ended.
use webhook_backend.Prelude.{
  ℕ, ◌+◌, ◌*◌, ◌≤◌, ◌<◌, ◌≡◌, ◌↔◌, refl, true, false, some, none, find_by_id, update_many,
  find_by_id-update_self, find_by_id-update_many, ok, arith, Option-cases, inl, inr, if◌then◌else◌,
}
use mathlib.Core.Option
use webhook_backend.Billing.Documents.{
  Db, Subscription, SubscriptionStatus, trial, trial_expired, active, past_due,
}
use webhook_backend.Billing.Trial.Access.{lets_in}
use webhook_backend.Billing.Trial.{
  Verdict, is_allowed, check_status, expire_stale, is_stale_trial, is_stale_period, days_until,
  day_ms, start_trial, trial_days, new_trial, set_status,
}

abbrev expire_one : ℕ → Subscription → Subscription
expire_one now s =
    let s' = if is_stale_trial now s then record s { status = trial_expired } else s in
    if is_stale_period now s' then record s' { status = past_due } else s'

find_by_id-expire_stale :
    (user now : ℕ) (db : Db)
    → find_by_id user (expire_stale now db).subscriptions
      ≡ Option.map (expire_one now) (find_by_id user db.subscriptions)
unfolding expire_stale
find_by_id-expire_stale user now db = ground (
  arith,
  find_by_id-update_many user (is_stale_trial now) (λ s. record s { status = trial_expired })
      db.subscriptions,
  find_by_id-update_many user (is_stale_period now) (λ s. record s { status = past_due })
      (update_many (is_stale_trial now) (λ s. record s { status = trial_expired })
        db.subscriptions),
)

check_status-expire_one :
    (status : SubscriptionStatus) (user now : ℕ) (s : Subscription) (db db' : Db)
    → s.status ≡ status
    → lets_in (check_status (expire_one now s).status user now (expire_one now s) db').0
      ≡ lets_in (check_status status user now s db).0
check_status-expire_one trial user now s db db' e = ground arith
check_status-expire_one _ user now s db db' e = ground arith

-- Running the hourly job first does not change whom the check lets in at the same moment.
pub is_allowed-expire_stale :
    (user now : ℕ) (db : Db)
    → lets_in (is_allowed user now (expire_stale now db)).0 ≡ lets_in (is_allowed user now db).0
unfolding is_allowed
is_allowed-expire_stale user now db = elim (Option-cases (find_by_id user db.subscriptions)) [
  | inl absent ↦ ground (arith, find_by_id-expire_stale user now db)
  | inr (s, found) ↦
      rw (find_by_id-expire_stale user now db, found, is_allowed)
        (check_status-expire_one s.status user now s db (expire_stale now db) refl)
]

-- After the check has written a status, the next one finds it.
found-set_status :
    (user : ℕ) (status : SubscriptionStatus) (db : Db) {s : Subscription}
    → find_by_id user db.subscriptions ≡ some s
    → find_by_id user (set_status user status db).subscriptions
      ≡ some (record s { status = status })
found-set_status user status db h =
    find_by_id-update_self user (λ s. record s { status = status }) db.subscriptions h

denied-again :
    (status : SubscriptionStatus) (user now later : ℕ) (db : Db) {s : Subscription} {v : Verdict}
    → now ≤ later
    → s.status ≡ status
    → find_by_id user db.subscriptions ≡ some s
    → (check_status status user now s db).0 ≡ ok v
    → v.allowed ≡ false
    → lets_in (is_allowed user later (check_status status user now s db).1).0 ≡ false
unfolding is_allowed
denied-again trial user now later db {s} le st h e d =
    ground (arith, found-set_status user trial_expired db h)
denied-again active user now later db {s} le st h e d =
    ground (arith, found-set_status user past_due db h)
denied-again _ user now later db {s} le st h e d = ground arith

-- Once a check has kept a user out, it keeps that user out at every later time, as long as nothing
-- else writes the subscription.
pub is_allowed_denied :
    (user now later : ℕ) (db : Db) {s : Subscription} {v : Verdict}
    → now ≤ later
    → find_by_id user db.subscriptions ≡ some s
    → (is_allowed user now db).0 ≡ ok v
    → v.allowed ≡ false
    → lets_in (is_allowed user later (is_allowed user now db).1).0 ≡ false
unfolding is_allowed
is_allowed_denied user now later db {s} {v} le h e d =
    ground (arith, denied-again s.status user now later db {s = s} {v = v} le refl h)

-- Before the end, the days that are left are the whole days that cover the remaining time, and no
-- day more.
pub days_until_ceil :
    (end now : ℕ)
    → now < end
    → (end ≤ now + days_until end now * day_ms) × (now + days_until end now * day_ms < end + day_ms)
unfolding days_until
days_until_ceil end now h = (omega arith, omega arith)

found-start_trial :
    (user now : ℕ) (db : Db)
    → find_by_id user db.subscriptions ≡ none
    → find_by_id user (start_trial user now db).1.subscriptions ≡ some (new_trial now)
unfolding start_trial
found-start_trial user now db absent = ground arith

-- A new user who starts a trial is let in for exactly ten days from then, and kept out afterwards.
pub start_trial_access :
    (user now later : ℕ) (db : Db)
    → find_by_id user db.subscriptions ≡ none
    → now ≤ later
    → (lets_in (is_allowed user later (start_trial user now db).1).0 ≡ true)
      ↔ (later ≤ now + trial_days * day_ms)
unfolding is_allowed days_until
start_trial_access user now later db absent le =
    ground (arith, found-start_trial user now db absent)
