-- ===== src/Billing/Resellers.antt =====
-- src/modules/billing/reseller.service.ts: users who bill others for their events. `period` is what
-- `nextMonthEnd` answers. `reseller_of` is the `resellerId` of a user's subscription. Names,
-- addresses of portals and notes are left out.
pub mod Suspension
pub mod Invoicing
mod Tests
use Prim.Native.String.{String}
use text.Mathlib.Text.{◌==◌ as str_eq}
use webhook_backend.Prelude.{
  ℕ, zero, suc, ◌+◌, Bool, true, false, not, ◌&&◌, ◌||◌, Option, some, none, List, [], ◌∷◌, ◌++◌,
  Collection, find_by_id, update_by_id, upsert_by_id, nullish_or, length, is_some, any, ◌==◌,
  if◌then◌else◌, Result, ok, err, Exception, Action, throw_if, or_throw, gets, modify, pure, ◌>>=◌,
  ◌>>◌,
}
use webhook_backend.Billing.Documents.{Db, Subscription, SubscriptionStatus, active, suspended}
use webhook_backend.Billing.Upgrades.{default_subscription}

-- A document of reseller.schema.ts
pub record Reseller : Type 0 where
  pub default_markup_pct : ℕ
  pub price_per_thousand_events : ℕ
  pub total_revenue_collected : ℕ

pub record ResellerCustomer : Type 0 where
  pub reseller_id : ℕ
  pub customer_id : ℕ
  pub plan_id : Option String
  pub markup_pct : ℕ
  pub price_per_thousand_events : ℕ
  pub current_month_events : ℕ
  pub billing_cycle_start : Option ℕ
  pub billing_cycle_end : Option ℕ
  pub is_active : Bool
  pub suspended_at : Option ℕ

pub data InvoiceStatus : Type 0 where
  open_status paid_status : InvoiceStatus

abbrev pub is_paid : InvoiceStatus → Bool
is_paid open_status = false
is_paid paid_status = true

-- An invoice of type `usage`
pub record UsageInvoice : Type 0 where
  pub reseller_id : ℕ
  pub customer_id : ℕ
  pub number : ℕ
  pub status : InvoiceStatus
  pub events_delivered : ℕ
  pub subtotal : ℕ
  pub tax : ℕ
  pub total : ℕ

pub record Store : Type 0 where
  pub db : Db
  pub reseller_of : Collection ℕ
  pub emails : Collection String
  pub resellers : Collection Reseller
  pub customers : Collection ResellerCustomer
  pub invoices : List UsageInvoice

-- `toLowerCase`, `Math.round((events / 1000) * price)` and `Math.round(amount * 0.18)`
pub record Outside : Type 0 where
  pub to_lower_case : String → String
  pub amount_of : (events price : ℕ) → ℕ
  pub gst : ℕ → ℕ

-- `findOne({ email })`
abbrev pub find_email : String → Collection String → Option ℕ
find_email email [] = none
find_email email ((id, e) ∷ emails) = if str_eq e email then some id else find_email email emails

abbrev pub is_customer_of : (reseller customer : ℕ) → ResellerCustomer → Bool
is_customer_of reseller customer rc = rc.reseller_id == reseller && rc.customer_id == customer

-- `findOne({ resellerId, customerId })`
abbrev pub find_customer : (reseller customer : ℕ) → Collection ResellerCustomer → Option ℕ
find_customer reseller customer [] = none
find_customer reseller customer ((id, rc) ∷ customers) =
    if is_customer_of reseller customer rc
    then some id
    else find_customer reseller customer customers

pub record CustomerDto : Type 0 where
  pub customer_email : String
  pub plan_id : Option String
  pub markup_pct : Option ℕ
  pub price_per_thousand_events : Option ℕ

abbrev pub new_customer :
    (reseller customer : ℕ) → CustomerDto → (now period : ℕ) → ResellerCustomer
new_customer reseller customer dto now period = record {
  reseller_id = reseller;
  customer_id = customer;
  plan_id = dto.plan_id;
  markup_pct = nullish_or dto.markup_pct 0;
  price_per_thousand_events = nullish_or dto.price_per_thousand_events 100;
  current_month_events = 0;
  billing_cycle_start = some now;
  billing_cycle_end = some period;
  is_active = true;
  suspended_at = none;
}

abbrev pub take_over : CustomerDto → (now period : ℕ) → Subscription → Subscription
take_over dto now period sub = record sub {
  status = active;
  plan_id = nullish_or dto.plan_id "reseller_custom";
  plan_name = "Reseller Custom";
  current_period_start = some now;
  current_period_end = some period;
}

abbrev pub upsert_subscription : ℕ → (Subscription → Subscription) → Db → Db
upsert_subscription user f db = record db {
  subscriptions = upsert_by_id user f default_subscription db.subscriptions;
}

-- `addCustomer`; `id` is the new document's.
pub add_customer :
    Outside → (id reseller : ℕ) → CustomerDto → (now period : ℕ) → Action Store (Unit {0})
add_customer out id reseller dto now period = do
  customer ←
      or_throw (← gets (λ s. find_email (out.to_lower_case dto.customer_email) s.emails))
        Exception.not_found
  exists_already ← gets (λ s. is_some (find_customer reseller customer s.customers))
  throw_if exists_already Exception.conflict
  modify (λ s. record s {
    customers = (id, new_customer reseller customer dto now period) ∷ s.customers;
    db = upsert_subscription customer (take_over dto now period) s.db;
    reseller_of = upsert_by_id customer (λ _. reseller) reseller s.reseller_of;
  })

abbrev pub is_reseller_of : (reseller : ℕ) → Option ℕ → Bool
is_reseller_of reseller none = false
is_reseller_of reseller (some r) = r == reseller

-- `findOneAndUpdate({ userId, resellerId }, ...)`
abbrev pub update_if_reseller : (reseller user : ℕ) → (Subscription → Subscription) → Store → Store
update_if_reseller reseller user f s =
    if is_reseller_of reseller (find_by_id user s.reseller_of)
    then record s { db = record s.db { subscriptions = update_by_id user f s.db.subscriptions } }
    else s

-- `suspendCustomer`
pub suspend_customer : (reseller customer now : ℕ) → Action Store (Unit {0})
suspend_customer reseller customer now = do
  id ← or_throw (← gets (λ s. find_customer reseller customer s.customers)) Exception.not_found
  modify (λ s. record s {
    customers =
        update_by_id id (λ rc. record rc { is_active = false; suspended_at = some now })
          s.customers;
  })
  modify (update_if_reseller reseller customer (λ sub. record sub { status = suspended }))

-- `reactivateCustomer`
pub reactivate_customer : (reseller customer period : ℕ) → Action Store (Unit {0})
reactivate_customer reseller customer period = do
  id ← or_throw (← gets (λ s. find_customer reseller customer s.customers)) Exception.not_found
  modify (λ s. record s {
    customers =
        update_by_id id (λ rc. record rc { is_active = true; suspended_at = none }) s.customers;
  })
  modify (
      update_if_reseller reseller customer
        (λ sub. record sub { status = active; current_period_end = some period }))

-- `incrementCustomerUsage`: the first active entry of the customer.
abbrev pub increment_usage :
    (customer events : ℕ) → Collection ResellerCustomer → Collection ResellerCustomer
increment_usage customer events [] = []
increment_usage customer events ((id, rc) ∷ customers) =
    if rc.customer_id == customer && rc.is_active
    then (id, record rc { current_month_events = rc.current_month_events + events }) ∷ customers
    else (id, rc) ∷ increment_usage customer events customers

pub increment_customer_usage : (customer events : ℕ) → Store → Store
increment_customer_usage customer events s = record s {
  customers = increment_usage customer events s.customers;
}

abbrev pub is_billed : (reseller : ℕ) → ResellerCustomer → Bool
is_billed reseller rc =
    rc.reseller_id == reseller && rc.is_active && not (rc.current_month_events == 0)

-- `number` is `countDocuments()` plus one.
abbrev pub usage_invoice : Outside → (number : ℕ) → ResellerCustomer → UsageInvoice
usage_invoice out number rc =
    let amount = out.amount_of rc.current_month_events rc.price_per_thousand_events in
    record {
      reseller_id = rc.reseller_id;
      customer_id = rc.customer_id;
      number = number;
      status = open_status;
      events_delivered = rc.current_month_events;
      subtotal = amount;
      tax = out.gst amount;
      total = amount + out.gst amount;
    }

abbrev pub start_cycle : (now period : ℕ) → ResellerCustomer → ResellerCustomer
start_cycle now period rc = record rc {
  current_month_events = 0;
  billing_cycle_start = some now;
  billing_cycle_end = some period;
}

-- Another request counts `n` events.
abbrev pub count_events : (n : ℕ) → ResellerCustomer → ResellerCustomer
count_events n rc = record rc { current_month_events = rc.current_month_events + n }

abbrev pub count_each :
    (arriving : ℕ → ℕ) → Collection ResellerCustomer → Collection ResellerCustomer
count_each arriving [] = []
count_each arriving ((id, rc) ∷ customers) =
    (id, count_events (arriving id) rc) ∷ count_each arriving customers

-- `invoiceNumber` is unique.
abbrev pub has_number : (number : ℕ) → List UsageInvoice → Bool
has_number number invoices = any (λ i. i.number == number) invoices

-- The loop of `generateMonthlyInvoices` over the customers as they were read, with the invoices
-- that are stored, `stored`, and for each customer's entry the events that
-- `incrementCustomerUsage` counts after that and before the entry's cycle starts again. The
-- answer is whether it came to its end, which a number that is taken prevents; then the
-- customers afterwards, and the new invoices.
abbrev pub bill_each :
    Outside
    → (arriving : ℕ → ℕ) → (reseller now period : ℕ) → (stored : List UsageInvoice)
    → Collection ResellerCustomer
    → Bool × Collection ResellerCustomer × List UsageInvoice
bill_each out arriving reseller now period stored [] = (true, [], [])
bill_each out arriving reseller now period stored ((id, rc) ∷ customers) =
    let number = suc (length stored) in
    let invoice = usage_invoice out number rc in
    let rc' = count_events (arriving id) rc in
    let next = if is_billed reseller rc then stored ++ invoice ∷ [] else stored in
    let (ends, later, billed) = bill_each out arriving reseller now period next customers in
    if not (is_billed reseller rc)
    then (ends, (id, rc') ∷ later, billed)
    else if has_number number stored
    then (false, (id, rc') ∷ count_each arriving customers, [])
    else (ends, (id, start_cycle now period rc') ∷ later, invoice ∷ billed)

abbrev pub total_of : List UsageInvoice → ℕ
total_of [] = 0
total_of (i ∷ invoices) = i.total + total_of invoices

abbrev pub collect : ℕ → Reseller → Reseller
collect amount r = record r { total_revenue_collected = r.total_revenue_collected + amount }

-- `generateMonthlyInvoices`
pub generate_monthly_invoices :
    Outside → (arriving : ℕ → ℕ) → (reseller now period : ℕ) → Store → Result (Unit {0}) × Store
generate_monthly_invoices out arriving reseller now period s =
    let (ends, customers, billed) =
      bill_each out arriving reseller now period s.invoices s.customers in
    let s' = record s { customers = customers; invoices = s.invoices ++ billed } in
    if ends
    then (
      ok tt,
      record s' { resellers = update_by_id reseller (collect (total_of billed)) s.resellers },
    )
    else (err Exception.duplicate_key, s')

abbrev pub paid_total : (reseller : ℕ) → List UsageInvoice → ℕ
paid_total reseller [] = 0
paid_total reseller (i ∷ invoices) =
    if i.reseller_id == reseller && is_paid i.status
    then i.total + paid_total reseller invoices
    else paid_total reseller invoices

-- `totalCollected` of `getResellerRevenue`
abbrev pub get_reseller_revenue : (reseller : ℕ) → Store → ℕ
get_reseller_revenue reseller s = paid_total reseller s.invoices
