-- ===== src/Billing/Upgrades.antt =====
-- subscription.service.ts: ordering and activating a paid plan, and cancelling it. Razorpay's own
-- order call is outside; a method's result keeps what the source computes.
pub mod Activation
pub mod Cancellation
mod Tests
use Prim.Native.String.{String}
use text.Mathlib.Text.{◌==◌ as str_eq}
use webhook_backend.Prelude.{
  ℕ, ◌+◌, ◌*◌, Bool, true, false, not, Option, some, none, List, ◌∷◌, pos, find_by_id, upsert_by_id,
  update_by_id, or_default, if◌then◌else◌, ◌==◌, Result, ok, err, Exception, Action, throw_if,
  or_throw, gets, modify, pure, ◌>>=◌, ◌>>◌, nullish_or, ℤ,
}
use webhook_backend.Billing.Documents.{
  Db, Subscription, SubscriptionStatus, has_status, trial, active, cancelled, Invoice, InvoiceType,
  InvoiceNumber, BillingUser, billing_payment_attempt, billing_payment_success,
}
use webhook_backend.Billing.External.{External}
use webhook_backend.Billing.Invoices.{next_invoice_number, paid_invoice}
use webhook_backend.Billing.Plans.{Plan, system_plan}
use webhook_backend.Billing.Credits.{signed_body, audit_log}

abbrev pub period_ms : ℕ
period_ms = 30 * 24 * 3_600_000

pub record UpgradeDto : Type 0 where
  pub order_id : String
  pub payment_id : String
  pub signature : String
  pub plan_id : String

-- `createUpgradeOrder`: the amount that Razorpay is asked to collect.
pub create_upgrade_order : ℕ → String → Action Db ℕ
create_upgrade_order user plan_id = do
  plan ← or_throw (system_plan plan_id) Exception.bad_request
  throw_if (str_eq plan_id "trial") Exception.bad_request
  throw_if (plan.price_monthly == 0) Exception.bad_request
  found ← gets (λ db. find_by_id user db.users)
  or_throw found Exception.not_found
  modify (audit_log user billing_payment_attempt)
  pure plan.price_monthly

-- What the schema's defaults give a subscription that an upgrade creates.
abbrev pub default_subscription : Subscription
default_subscription = record {
  plan_id = "";
  plan_name = "";
  status = trial;
  trial_start_at = none;
  trial_end_at = none;
  current_period_start = none;
  current_period_end = none;
  last_payment_id = none;
  last_payment_at = none;
  cancelled_at = none;
  cancel_reason = none;
  auto_renew = true;
  events_per_month = pos 5000;
  endpoints_limit = pos 3;
  retention_days = 7;
}

-- The update that `verifyUpgradePayment` makes to the subscription.
abbrev pub activate : UpgradeDto → Plan → ℕ → Subscription → Subscription
activate dto plan now s = record s {
  plan_id = dto.plan_id;
  plan_name = plan.name;
  status = active;
  current_period_start = some now;
  current_period_end = some (now + period_ms);
  last_payment_id = some dto.payment_id;
  last_payment_at = some now;
  events_per_month = plan.events_per_month;
  endpoints_limit = plan.endpoints_limit;
  retention_days = plan.retention_days;
}

-- ... and to the user.
abbrev pub activate_user : UpgradeDto → ℕ → BillingUser → BillingUser
activate_user dto now u = record u {
  plan = dto.plan_id;
  subscription_start_at = some now;
  subscription_end_at = some (now + period_ms);
  razorpay_payment_id = some dto.payment_id;
}

-- The writes of `verifyUpgradePayment` once its checks have passed.
pub settle_upgrade : External → ℕ → UpgradeDto → Plan → (year now : ℕ) → Db → Db
settle_upgrade ext user dto plan year now db = record db {
  subscriptions = upsert_by_id user (activate dto plan now) default_subscription db.subscriptions;
  users = update_by_id user (activate_user dto now) db.users;
  invoices =
      paid_invoice ext InvoiceType.subscription user plan.price_monthly dto.payment_id now
        (now + period_ms) (next_invoice_number year db)
      ∷ db.invoices;
  audit = (audit_log user billing_payment_success db).audit;
}

-- `verifyUpgradePayment`
pub verify_upgrade_payment :
    External → ℕ → UpgradeDto → (year now : ℕ) → Action Db (Subscription × InvoiceNumber)
unfolding settle_upgrade
verify_upgrade_payment ext user dto year now db =
    if not (str_eq (ext.hmac (signed_body dto.order_id dto.payment_id)) dto.signature)
    then (err Exception.bad_request, db)
    else elim (system_plan dto.plan_id) [
      | none ↦ (err Exception.bad_request, db)
      | some plan ↦
          let db' = settle_upgrade ext user dto plan year now db in
          (
            ok (
              or_default (find_by_id user db'.subscriptions) default_subscription,
              next_invoice_number year db,
            ),
            db',
          )
    ]

-- The update of `cancelSubscription`; `cancelReason` is `reason || 'User requested cancellation'`.
abbrev pub cancel : ℕ → String → Subscription → Subscription
cancel now reason s = record s {
  status = cancelled;
  cancelled_at = some now;
  cancel_reason = some (if str_eq reason "" then "User requested cancellation" else reason);
  auto_renew = false;
}

-- `cancelSubscription`
pub cancel_subscription : ℕ → String → ℕ → Action Db (Unit {0})
cancel_subscription user reason now db = elim (find_by_id user db.subscriptions) [
  | none ↦ (err Exception.bad_request, db)
  | some sub ↦ if has_status sub.status cancelled then (err Exception.bad_request, db) else (
    ok tt,
    record db { subscriptions = update_by_id user (cancel now reason) db.subscriptions },
  )
]
