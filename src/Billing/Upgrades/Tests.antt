-- ===== src/Billing/Upgrades/Tests.antt =====
-- The theorems on upgrades and cancellation at concrete databases.
use webhook_backend.Prelude.{◌≡◌, refl, true, some, [], ◌∷◌, arith, find_by_id}
use webhook_backend.Billing.Documents.{Db, InvoiceType, active}
use webhook_backend.Billing.External.{External}
use webhook_backend.Billing.Invoices.{next_invoice_number}
use webhook_backend.Billing.Plans.{system_plan, enterprise_plan, unlimited}
use webhook_backend.Billing.Trial.{new_trial}
use webhook_backend.Billing.Upgrades.{UpgradeDto, verify_upgrade_payment}
use webhook_backend.Billing.Upgrades.Activation.{verify_upgrade_payment_activates}

abbrev ext : External
ext = record { hmac = λ body. "sig"; gst = λ price. price; accepts = λ tx txs. true }

abbrev db : Db
db = record {
  subscriptions = (1, new_trial 0) ∷ [];
  users = [];
  packages = [];
  balances = [];
  transactions = [];
  invoices = [];
  audit = [];
}

abbrev dto : UpgradeDto
dto = record { order_id = "o"; payment_id = "p"; signature = "sig"; plan_id = "enterprise" }

verify_upgrade_payment_activates_example :
    let db' = (verify_upgrade_payment ext 1 dto 2026 9 db).1 in
    (find_by_id 1 db'.subscriptions
      ≡ some (record (new_trial 0) {
        plan_id = "enterprise";
        plan_name = "Enterprise";
        status = active;
        current_period_start = some 9;
        current_period_end = some 2_592_000_009;
        last_payment_id = some "p";
        last_payment_at = some 9;
        events_per_month = unlimited;
        endpoints_limit = unlimited;
        retention_days = 365;
      }))
    × (find_by_id 2 db'.subscriptions ≡ find_by_id 2 db.subscriptions)
    × (db'.invoices
        ≡ record {
          user_id = 1;
          type = InvoiceType.subscription;
          invoice_number = record { year = 2026; number = 1 };
          period_start = 9;
          period_end = 2_592_000_009;
          subtotal = 0;
          tax = 0;
          total = 0;
          razorpay_payment_id = some "p";
        }
          ∷ [])
unfolding system_plan next_invoice_number
verify_upgrade_payment_activates_example =
    verify_upgrade_payment_activates ext 1 dto 2026 9 db {plan = enterprise_plan} 2 refl refl
      (λ e. omega (arith, e))
