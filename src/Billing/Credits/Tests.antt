-- ===== src/Billing/Credits/Tests.antt =====
-- The credit theorems at concrete databases.
use webhook_backend.Prelude.{
  ◌≡◌, refl, true, false, some, none, [], ◌∷◌, pos, err, arith, ◌+ℤ◌, ◌-ℤ◌, Exception,
}
use webhook_backend.Billing.Documents.{
  Db, empty_balance, CreditTransaction, adjustment, CreditPackage, Subscription, cancelled,
}
use webhook_backend.Billing.External.{External}
use webhook_backend.Billing.Credits.{
  PurchaseDto, credit, balance_doc, deduct_for_delivery, DeductOpts, deducted, verify_purchase,
}
use webhook_backend.Billing.Credits.Ledger.{IsBalanced}
use webhook_backend.Billing.Credits.Deduction.{
  IsSolvent, Deducts, deduct_for_delivery-IsSolvent, deduct_for_delivery-IsBalanced,
  deduct_for_delivery-Deducts,
}
use webhook_backend.Billing.Credits.Purchase.{verify_purchase-refused}

-- Every body has the one signature "sig", GST is 18 in the hundred, and a store that admits all.
abbrev ext : External
ext = record { hmac = λ body. "sig"; gst = λ price. price; accepts = λ tx txs. true }

abbrev full_store : External
full_store = record { hmac = λ body. "sig"; gst = λ price. price; accepts = λ tx txs. false }

abbrev plan : Subscription
plan = record {
  plan_id = "pro";
  plan_name = "Pro";
  status = cancelled;
  trial_start_at = none;
  trial_end_at = none;
  current_period_start = none;
  current_period_end = some 10;
  last_payment_id = none;
  last_payment_at = none;
  cancelled_at = none;
  cancel_reason = none;
  auto_renew = true;
  events_per_month = pos 5;
  endpoints_limit = pos 5;
  retention_days = 7;
}

abbrev starter_package : CreditPackage
starter_package = record { credits = 50; bonus_credits = 5; price = 999; is_active = true }

abbrev opening : CreditTransaction
opening = record {
  user_id = 1;
  type = adjustment;
  amount = pos 3;
  balance_after = pos 3;
  package_id = none;
  razorpay_payment_id = none;
  project_id = none;
  endpoint_id = none;
  delivery_log_id = none;
}

abbrev db : Db
db = record {
  subscriptions = (1, plan) ∷ [];
  users = [];
  packages = (7, starter_package) ∷ [];
  balances = (1, record empty_balance { balance = pos 3 }) ∷ [];
  transactions = opening ∷ [];
  invoices = [];
  audit = [];
}

abbrev dto : PurchaseDto
dto = record { order_id = "o"; payment_id = "p"; signature = "sig"; package_id = 7 }

abbrev opts : DeductOpts
opts = record { project_id = none; endpoint_id = none; delivery_log_id = none; attempts = some 1 }

db-IsBalanced : IsBalanced db
unfolding ◌+ℤ◌
db-IsBalanced u = ground arith

db-IsSolvent : IsSolvent db
db-IsSolvent u = ground arith

deduct_for_delivery-IsSolvent_example : IsSolvent (deduct_for_delivery ext 1 opts (λ d. d) db).1
deduct_for_delivery-IsSolvent_example =
    deduct_for_delivery-IsSolvent ext 1 opts (λ d. d) db (λ d h. h) db-IsSolvent

deduct_for_delivery-IsBalanced_example : IsBalanced (deduct_for_delivery ext 1 opts (λ d. d) db).1
unfolding deduct_for_delivery ◌-ℤ◌
deduct_for_delivery-IsBalanced_example =
    deduct_for_delivery-IsBalanced ext 1 opts (λ d. d) db {r = deducted (pos 1)} (λ d h. h)
      db-IsBalanced refl

deduct_for_delivery-Deducts_example :
    Deducts 1 2 opts db db (deduct_for_delivery ext 1 opts (λ d. d) db).1 (deducted (pos 1))
unfolding deduct_for_delivery ◌-ℤ◌
deduct_for_delivery-Deducts_example =
    deduct_for_delivery-Deducts ext 1 2 opts (λ d. d) db (deducted (pos 1)) refl

verify_purchase-refused_example :
    let (r, db') = verify_purchase full_store 1 dto 2026 9 db in
    (r ≡ err Exception.duplicate_key)
    × (balance_doc 1 db' ≡ credit (pos 55) (balance_doc 1 db))
    × (db'.transactions ≡ db.transactions)
    × (db'.invoices ≡ db.invoices)
verify_purchase-refused_example = verify_purchase-refused full_store 1 dto 2026 9 db refl refl refl
