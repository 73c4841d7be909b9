-- ===== src/Billing/Documents.antt =====
-- The documents of src/modules/billing/schemas, and the database that the billing services share.
-- Ids of users, packages, projects and endpoints are only compared, so they are numbers; a date is
-- its count of milliseconds. Fields that no modelled operation reads or writes are left out, and
-- so are the descriptions that are only shown.
use Prim.Native.String.{String}
use webhook_backend.Prelude.{ℕ, Bool, Option, List, ℤ, pos, Collection, ◌==◌, none, false}

pub data SubscriptionStatus : Type 0 where
  trial trial_expired active past_due cancelled suspended credit_only : SubscriptionStatus

-- The enum's members as numbers, to compare them.
abbrev pub status_code : SubscriptionStatus → ℕ
status_code trial = 0
status_code trial_expired = 1
status_code active = 2
status_code past_due = 3
status_code cancelled = 4
status_code suspended = 5
status_code credit_only = 6

abbrev pub has_status : SubscriptionStatus → SubscriptionStatus → Bool
has_status a b = status_code a == status_code b

pub record Subscription : Type 0 where
  pub plan_id : String
  pub plan_name : String
  pub status : SubscriptionStatus
  pub trial_start_at : Option ℕ
  pub trial_end_at : Option ℕ
  pub current_period_start : Option ℕ
  pub current_period_end : Option ℕ
  pub last_payment_id : Option String
  pub last_payment_at : Option ℕ
  pub cancelled_at : Option ℕ
  pub cancel_reason : Option String
  pub auto_renew : Bool
  pub events_per_month : ℤ
  pub endpoints_limit : ℤ
  pub retention_days : ℕ

pub record CreditPackage : Type 0 where
  pub credits : ℕ
  pub bonus_credits : ℕ
  pub price : ℕ
  pub is_active : Bool

pub record CreditBalance : Type 0 where
  pub balance : ℤ
  pub lifetime_purchased : ℕ
  pub lifetime_used : ℕ
  pub low_balance_alert_at : Option ℤ
  pub auto_top_up_enabled : Bool
  pub auto_top_up_package_id : Option ℕ
  pub auto_top_up_threshold : Option ℤ

-- What the schema's defaults give a new balance.
abbrev pub empty_balance : CreditBalance
empty_balance = record {
  balance = pos 0;
  lifetime_purchased = 0;
  lifetime_used = 0;
  low_balance_alert_at = none;
  auto_top_up_enabled = false;
  auto_top_up_package_id = none;
  auto_top_up_threshold = none;
}

pub data CreditTxType : Type 0 where
  purchase usage refund adjustment bonus expiry : CreditTxType

pub record CreditTransaction : Type 0 where
  pub user_id : ℕ
  pub type : CreditTxType
  pub amount : ℤ
  pub balance_after : ℤ
  pub package_id : Option ℕ
  pub razorpay_payment_id : Option String
  pub project_id : Option ℕ
  pub endpoint_id : Option ℕ
  pub delivery_log_id : Option ℕ

pub data InvoiceType : Type 0 where
  subscription credit reseller : InvoiceType

-- `INV-<year>-<number>`
pub record InvoiceNumber : Type 0 where
  pub year : ℕ
  pub number : ℕ

pub record Invoice : Type 0 where
  pub user_id : ℕ
  pub type : InvoiceType
  pub invoice_number : InvoiceNumber
  pub period_start : ℕ
  pub period_end : ℕ
  pub subtotal : ℕ
  pub tax : ℕ
  pub total : ℕ
  pub razorpay_payment_id : Option String

pub data AuditAction : Type 0 where
  billing_payment_attempt billing_payment_success : AuditAction

pub record AuditEntry : Type 0 where
  pub user_id : ℕ
  pub action : AuditAction

-- The `User` fields that billing writes.
pub record BillingUser : Type 0 where
  pub plan : String
  pub subscription_start_at : Option ℕ
  pub subscription_end_at : Option ℕ
  pub razorpay_payment_id : Option String

-- The collections. Subscriptions and balances are unique by user, and keyed by it; transactions,
-- invoices and audit entries are logs with the newest first.
pub record Db : Type 0 where
  pub subscriptions : Collection Subscription
  pub users : Collection BillingUser
  pub packages : Collection CreditPackage
  pub balances : Collection CreditBalance
  pub transactions : List CreditTransaction
  pub invoices : List Invoice
  pub audit : List AuditEntry
