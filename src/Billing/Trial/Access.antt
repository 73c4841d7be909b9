-- ===== src/Billing/Trial/Access.antt =====
-- Who may use the service (`isAllowed`, which SubscriptionGuard asks on every request).
use webhook_backend.Prelude.{
  ℕ, ◌≤◌, ◌≡◌, ◌↔◌, Bool, true, false, Option, some, none, find_by_id, Result, ok, err, arith,
  Option-cases, inl, inr,
}
use webhook_backend.Billing.Documents.{
  Db, Subscription, SubscriptionStatus, trial, trial_expired, active, past_due, cancelled,
  suspended, credit_only,
}
use webhook_backend.Billing.Trial.{
  account_suspended, Verdict, deny, subscription_cancelled, is_allowed, check_status, days_until,
}

-- A date that is absent, or not yet past.
abbrev pub IsOpen : Option ℕ → ℕ → Type 0
IsOpen none now = Unit
IsOpen (some date) now = now ≤ date

-- Who has access, by status: a trial or a paid period that is not over, or prepaid credits.
abbrev pub HasAccess : SubscriptionStatus → Subscription → ℕ → Type 0
HasAccess trial s now = IsOpen s.trial_end_at now
HasAccess active s now = IsOpen s.current_period_end now
HasAccess credit_only s now = Unit
HasAccess trial_expired s now = ⊥
HasAccess past_due s now = ⊥
HasAccess cancelled s now = ⊥
HasAccess suspended s now = ⊥

check_status_iff :
    (status : SubscriptionStatus) (user now : ℕ) (s : Subscription) (db : Db) {v : Verdict}
    → (check_status status user now s db).0 ≡ ok v
    → (v.allowed ≡ true) ↔ HasAccess status s now
unfolding days_until
check_status_iff trial user now s db e = elim (Option-cases s.trial_end_at) [
  | inl absent ↦ ground arith
  | inr (end, known) ↦ ground arith
]
check_status_iff active user now s db e = elim (Option-cases s.current_period_end) [
  | inl absent ↦ ground arith
  | inr (end, known) ↦ ground arith
]
check_status_iff _ user now s db e = ground arith

-- A check that answers lets a subscriber in exactly when the subscription's status and dates grant
-- access.
pub is_allowed_iff :
    (user now : ℕ) (db : Db) {s : Subscription} {v : Verdict}
    → find_by_id user db.subscriptions ≡ some s
    → (is_allowed user now db).0 ≡ ok v
    → (v.allowed ≡ true) ↔ HasAccess s.status s now
unfolding is_allowed
is_allowed_iff user now db {s} h = rw (h, is_allowed) (check_status_iff s.status user now s db)

-- Whether a check let the user in; a check that fails lets nobody in.
abbrev pub lets_in : Result Verdict → Bool
lets_in (ok v) = v.allowed
lets_in (err e) = false

pub is_allowed-active :
    (user now end : ℕ) (db : Db) {s : Subscription}
    → find_by_id user db.subscriptions ≡ some s
    → s.status ≡ active
    → s.current_period_end ≡ some end
    → (lets_in (is_allowed user now db).0 ≡ true) ↔ (now ≤ end)
unfolding is_allowed
is_allowed-active user now end db h st e = ground arith

pub is_allowed-cancelled :
    (user now : ℕ) (db : Db) {s : Subscription}
    → find_by_id user db.subscriptions ≡ some s
    → s.status ≡ cancelled
    → is_allowed user now db ≡ (ok (deny subscription_cancelled), db)
unfolding is_allowed
is_allowed-cancelled user now db h st = ground arith

pub is_allowed-suspended :
    (user now : ℕ) (db : Db) {s : Subscription}
    → find_by_id user db.subscriptions ≡ some s
    → s.status ≡ suspended
    → is_allowed user now db ≡ (ok (deny account_suspended), db)
unfolding is_allowed
is_allowed-suspended user now db h st = ground arith
