-- ===== src/Billing/Upgrades/Activation.antt =====
-- What a verified payment activates (`verifyUpgradePayment`).
use text.Mathlib.Text.{◌==◌ as str_eq}
use webhook_backend.Prelude.{
  ℕ, ◌+◌, ◌↔◌, ◌≡◌, ◌≢◌, ◌≤◌, refl, Bool, true, false, some, none, find_by_id, find_by_id-upsert,
  or_default, err, arith, ◌⊎◌, Exception, ◌∷◌,
}
use webhook_backend.Billing.Documents.{Db, InvoiceType, active}
use webhook_backend.Billing.External.{External}
use webhook_backend.Billing.Invoices.{next_invoice_number, paid_invoice}
use webhook_backend.Billing.Plans.{Plan, system_plan}
use webhook_backend.Billing.Credits.{signed_body}
use webhook_backend.Billing.Upgrades.{
  UpgradeDto, activate, verify_upgrade_payment, default_subscription, period_ms,
}
use webhook_backend.Billing.Trial.{is_allowed}
use webhook_backend.Billing.Trial.Access.{lets_in, is_allowed-active}

abbrev pub is_signed : External → UpgradeDto → Bool
is_signed ext dto = str_eq (ext.hmac (signed_body dto.order_id dto.payment_id)) dto.signature

module _ (ext : External) (user : ℕ) (dto : UpgradeDto) (year now : ℕ) (db : Db) where
  abbrev after : Db
  after = (verify_upgrade_payment ext user dto year now db).1

  -- A call that fails changes nothing, and a call fails exactly when the signature is not
  -- Razorpay's or the plan is unknown.
  pub verify_upgrade_payment_fails :
      (verify_upgrade_payment ext user dto year now db ≡ (err Exception.bad_request, db))
      ↔ ((is_signed ext dto ≡ false) ⊎ (system_plan dto.plan_id ≡ none))
  unfolding verify_upgrade_payment
  verify_upgrade_payment_fails = ground arith

  activated :
      {plan : Plan}
      → is_signed ext dto ≡ true
      → system_plan dto.plan_id ≡ some plan
      → find_by_id user after.subscriptions
        ≡ some (
            activate dto plan now
              (or_default (find_by_id user db.subscriptions) default_subscription))
  unfolding verify_upgrade_payment
  activated {plan} signed known = ground (
    arith,
    find_by_id-upsert user user (activate dto plan now) default_subscription db.subscriptions,
  )

  -- A signed call activates whichever plan the request names, with that plan's limits, for thirty
  -- days, whatever the subscription was before and whatever the order was for; it leaves every
  -- other user's subscription alone, and invoices the named plan's price.
  pub verify_upgrade_payment_activates :
      {plan : Plan} (other : ℕ)
      → is_signed ext dto ≡ true
      → system_plan dto.plan_id ≡ some plan
      → user ≢ other
      → (find_by_id user after.subscriptions
          ≡ some (record (or_default (find_by_id user db.subscriptions) default_subscription) {
            plan_id = dto.plan_id;
            plan_name = plan.name;
            status = active;
            current_period_start = some now;
            current_period_end = some (now + 2_592_000_000);
            last_payment_id = some dto.payment_id;
            last_payment_at = some now;
            events_per_month = plan.events_per_month;
            endpoints_limit = plan.endpoints_limit;
            retention_days = plan.retention_days;
          }))
        × (find_by_id other after.subscriptions ≡ find_by_id other db.subscriptions)
        × (after.invoices
            ≡ record {
              user_id = user;
              type = InvoiceType.subscription;
              invoice_number = next_invoice_number year db;
              period_start = now;
              period_end = now + 2_592_000_000;
              subtotal = plan.price_monthly;
              tax = ext.gst plan.price_monthly;
              total = plan.price_monthly + ext.gst plan.price_monthly;
              razorpay_payment_id = some dto.payment_id;
            }
              ∷ db.invoices)
  unfolding verify_upgrade_payment paid_invoice
  verify_upgrade_payment_activates {plan} other signed known ne = (
    activated signed known,
    ground (
      arith,
      find_by_id-upsert user other (activate dto plan now) default_subscription db.subscriptions,
    ),
    ground arith,
  )

  -- After a signed call for a known plan the user is let in for exactly the thirty days of the
  -- period.
  pub verify_upgrade_payment_access :
      {plan : Plan} (later : ℕ)
      → is_signed ext dto ≡ true
      → system_plan dto.plan_id ≡ some plan
      → (lets_in (is_allowed user later after).0 ≡ true) ↔ (later ≤ now + period_ms)
  verify_upgrade_payment_access {plan} later signed known =
      is_allowed-active user later (now + period_ms) after (activated signed known) refl refl
