-- ===== src/Billing/Credits.antt =====
-- credits.service.ts: prepaid credits, the log of their transactions, and their purchase.
-- A method that awaits between a read and a write takes what other tasks do there as `between`.
pub mod Ledger
pub mod Deduction
pub mod Purchase
mod Tests
use Prim.Native.String
use Prim.Native.String.{String}
use text.Mathlib.Text.{◌==◌ as str_eq}
use webhook_backend.Prelude.{
  ℕ, ◌+◌, ◌*◌, Bool, true, false, not, ◌&&◌, ◌||◌, Option, some, none, List, ◌∷◌, ℤ, pos, ◌+ℤ◌,
  ◌-ℤ◌, pos_part, leb_ℤ, ltb_ℤ, Collection, find_by_id, upsert_by_id, update_by_id, or_default,
  if◌then◌else◌, Exception, Result, Action, ok, err, throw, pure, gets, modify, throw_if, or_throw,
  ◌>>=◌, ◌>>◌, num_or,
}
use webhook_backend.Billing.Documents.{
  Db, CreditBalance, empty_balance, CreditPackage, CreditTransaction, CreditTxType, purchase, usage,
  adjustment, InvoiceType, InvoiceNumber, Subscription, SubscriptionStatus, has_status,
  trial_expired, cancelled, credit_only, AuditAction, billing_payment_attempt,
  billing_payment_success,
}
use webhook_backend.Billing.External.{External}
use webhook_backend.Billing.Invoices.{next_invoice_number, paid_invoice}

abbrev pub credits_per_delivery : ℕ
credits_per_delivery = 1

abbrev pub credits_per_retry : ℕ
credits_per_retry = 1

-- `{ $inc: { balance, lifetimePurchased } }` of `topUp`
abbrev pub credit : ℤ → CreditBalance → CreditBalance
credit amount b = record b {
  balance = b.balance +ℤ amount;
  lifetime_purchased = b.lifetime_purchased + pos_part amount;
}

-- `{ $inc: { balance, lifetimeUsed } }` of `deductForDelivery`
abbrev pub debit : ℕ → CreditBalance → CreditBalance
debit amount b = record b {
  balance = b.balance -ℤ pos amount;
  lifetime_used = b.lifetime_used + amount;
}

abbrev pub balance_doc : ℕ → Db → CreditBalance
balance_doc user db = or_default (find_by_id user db.balances) empty_balance

abbrev pub audit_log : ℕ → AuditAction → Db → Db
audit_log user action db = record db {
  audit = (record { user_id = user; action = action }) ∷ db.audit;
}

-- `getBalance`, which creates the document on first sight
pub get_balance : ℕ → Action Db CreditBalance
get_balance user db =
    let db' = record db { balances = upsert_by_id user (λ b. b) empty_balance db.balances } in
    (ok (balance_doc user db'), db')

-- `txModel.create`: the store refuses a document that breaks a unique index.
pub create_transaction : External → CreditTransaction → Action Db (Unit {0})
create_transaction ext tx = do
  accepted ← gets (λ db. ext.accepts tx db.transactions)
  throw_if (not accepted) Exception.duplicate_key
  modify (λ db. record db { transactions = tx ∷ db.transactions })

-- `topUp`: the balance moves first, and the transaction is written afterwards.
pub top_up : External → ℕ → ℤ → CreditTxType → Option ℕ → Option String → Action Db CreditBalance
unfolding create_transaction
top_up ext user amount type package_id payment_id = do
  modify
      (λ db. record db { balances = upsert_by_id user (credit amount) empty_balance db.balances })
  bal ← gets (balance_doc user)
  create_transaction ext (record {
    user_id = user;
    type = type;
    amount = amount;
    balance_after = bal.balance;
    package_id = package_id;
    razorpay_payment_id = payment_id;
    project_id = none;
    endpoint_id = none;
    delivery_log_id = none;
  })
  pure bal

-- `adminAdjust`
pub admin_adjust : External → ℕ → ℤ → Action Db ℤ
unfolding top_up
admin_adjust ext user amount = do
  bal ← top_up ext user amount adjustment none none
  pure bal.balance

pub record DeductOpts : Type 0 where
  pub project_id : Option ℕ
  pub endpoint_id : Option ℕ
  pub delivery_log_id : Option ℕ
  pub attempts : Option ℕ

pub data DeductResult : Type 0 where
  deducted : ℤ → DeductResult
  insufficient_credits concurrent_depletion : ℤ → DeductResult

abbrev pub deduction_amount : DeductOpts → ℕ
deduction_amount opts = credits_per_delivery + num_or opts.attempts 0 * credits_per_retry

-- `bal && bal.balance >= amount`
abbrev pub can_pay : ℕ → Option CreditBalance → Bool
can_pay amount none = false
can_pay amount (some b) = leb_ℤ (pos amount) b.balance

-- The atomic `findOneAndUpdate({ userId, balance: { $gte: amount } }, …)` and the transaction that
-- follows it; `seen` is the balance that the first read saw.
pub deduct_guarded : External → ℕ → DeductOpts → ℤ → Action Db DeductResult
unfolding create_transaction
deduct_guarded ext user opts seen db =
    let amount = deduction_amount opts in
    if not (can_pay amount (find_by_id user db.balances))
    then (ok (concurrent_depletion seen), db)
    else (do
      modify (λ d. record d { balances = update_by_id user (debit amount) d.balances })
      updated ← gets (balance_doc user)
      create_transaction ext (record {
        user_id = user;
        type = usage;
        amount = pos 0 -ℤ pos amount;
        balance_after = updated.balance;
        package_id = none;
        razorpay_payment_id = none;
        project_id = opts.project_id;
        endpoint_id = opts.endpoint_id;
        delivery_log_id = opts.delivery_log_id;
      })
      pure (deducted updated.balance))
        db

-- `deductForDelivery`
pub deduct_for_delivery : External → ℕ → DeductOpts → (between : Db → Db) → Action Db DeductResult
unfolding deduct_guarded
deduct_for_delivery ext user opts between db =
    let seen = (balance_doc user db).balance in
    if not (can_pay (deduction_amount opts) (find_by_id user db.balances))
    then (ok (insufficient_credits seen), db)
    else deduct_guarded ext user opts seen (between db)

pub record PurchaseDto : Type 0 where
  pub order_id : String
  pub payment_id : String
  pub signature : String
  pub package_id : ℕ

abbrev pub signed_body : String → String → String
signed_body order_id payment_id = String.◌++◌ order_id (String.◌++◌ "|" payment_id)

-- The user's subscription, if its trial has expired or it was cancelled, goes on with credits.
abbrev pub to_credit_only : Subscription → Subscription
to_credit_only s =
    if has_status s.status trial_expired || has_status s.status cancelled
    then record s { status = credit_only }
    else s

-- `createPurchaseOrder`: the amount that Razorpay is asked to collect.
pub create_purchase_order : ℕ → ℕ → Action Db ℕ
create_purchase_order user package_id = do
  pkg ← or_throw (← gets (λ db. find_by_id package_id db.packages)) Exception.not_found
  throw_if (not pkg.is_active) Exception.not_found
  modify (audit_log user billing_payment_attempt)
  pure pkg.price

-- The invoice and the change of subscription that follow a credited purchase.
pub settle_purchase :
    External → ℕ → PurchaseDto → CreditPackage → (year now : ℕ) → Action Db InvoiceNumber
settle_purchase ext user dto pkg year now = do
  invoice_number ← gets (next_invoice_number year)
  modify (λ db. record db {
    invoices =
        paid_invoice ext InvoiceType.credit user pkg.price dto.payment_id now now invoice_number
        ∷ db.invoices;
    subscriptions = update_by_id user to_credit_only db.subscriptions;
  })
  modify (audit_log user billing_payment_success)
  pure invoice_number

-- `verifyPurchase`
pub verify_purchase : External → ℕ → PurchaseDto → (year now : ℕ) → Action Db (ℤ × InvoiceNumber)
verify_purchase ext user dto year now = do
  throw_if (not (str_eq (ext.hmac (signed_body dto.order_id dto.payment_id)) dto.signature))
      Exception.bad_request
  pkg ← or_throw (← gets (λ db. find_by_id dto.package_id db.packages)) Exception.not_found
  bal ←
      top_up ext user (pos (pkg.credits + pkg.bonus_credits)) purchase (some dto.package_id)
        (some dto.payment_id)
  invoice_number ← settle_purchase ext user dto pkg year now
  pure (bal.balance, invoice_number)

-- `updateAutoTopUp`
pub update_auto_top_up : ℕ → Bool → Option ℕ → Option ℤ → Action Db CreditBalance
update_auto_top_up user enabled package_id threshold = do
  modify (λ db. record db {
    balances =
        upsert_by_id user
          (λ b. record b {
            auto_top_up_enabled = enabled;
            auto_top_up_package_id = package_id;
            auto_top_up_threshold = threshold;
          })
          empty_balance db.balances;
  })
  gets (balance_doc user)
