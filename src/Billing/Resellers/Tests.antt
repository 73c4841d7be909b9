-- ===== src/Billing/Resellers/Tests.antt =====
-- A reseller, user 1, and user 2, who has a subscription of their own.
use webhook_backend.Prelude.{
  ℕ, ◌==◌, if◌then◌else◌, ◌≡◌, refl, ◌+◌, ◌*◌, ◌/◌, true, none, [], ◌∷◌, ok,
}
use webhook_backend.Billing.Documents.{Db}
use webhook_backend.Billing.Trial.{is_allowed, deny, account_suspended, new_trial}
use webhook_backend.Billing.Resellers.{
  Reseller, ResellerCustomer, Store, Outside, CustomerDto, add_customer, suspend_customer,
  generate_monthly_invoices,
}
use webhook_backend.Billing.Resellers.Suspension.{stranger_suspends}
use webhook_backend.Billing.Resellers.Invoicing.{
  outstanding, events_of, generate_monthly_invoices-events,
}

abbrev out : Outside
out = record {
  to_lower_case = λ t. t;
  amount_of = λ events price. events * price / 1_000;
  gst = λ a. a * 18 / 100;
}

abbrev db : Db
db = record {
  subscriptions = (2, new_trial 100) ∷ [];
  users = [];
  packages = [];
  balances = [];
  transactions = [];
  invoices = [];
  audit = [];
}

abbrev profile : Reseller
profile = record {
  default_markup_pct = 20;
  price_per_thousand_events = 100;
  total_revenue_collected = 0;
}

abbrev billed_customer : ResellerCustomer
billed_customer = record {
  reseller_id = 1;
  customer_id = 3;
  plan_id = none;
  markup_pct = 0;
  price_per_thousand_events = 100;
  current_month_events = 5_000;
  billing_cycle_start = none;
  billing_cycle_end = none;
  is_active = true;
  suspended_at = none;
}

abbrev store : Store
store = record {
  db = db;
  reseller_of = [];
  emails = (2, "b@x.org") ∷ [];
  resellers = (1, profile) ∷ [];
  customers = (8, billed_customer) ∷ [];
  invoices = [];
}

abbrev dto : CustomerDto
dto = record {
  customer_email = "b@x.org";
  plan_id = none;
  markup_pct = none;
  price_per_thousand_events = none;
}

stranger_suspends_example :
    let s1 = (add_customer out 9 1 dto 500 900 store).1 in
    let (r, s2) = suspend_customer 1 2 500 s1 in
    (r ≡ ok tt) × (is_allowed 2 700 s2.db ≡ (ok (deny account_suspended), s2.db))
stranger_suspends_example = stranger_suspends out 9 1 2 dto 500 900 700 store refl refl

-- Seven events arrive at the customer's entry while its invoice is made.
abbrev arriving : ℕ → ℕ
arriving id = if id == 8 then 7 else 0

generate_monthly_invoices-events_example :
    let s' = (generate_monthly_invoices out arriving 1 500 900 store).1 in
    events_of s'.invoices + outstanding s'.customers + 7
    ≡ events_of store.invoices + outstanding store.customers + 7
unfolding generate_monthly_invoices
generate_monthly_invoices-events_example =
    generate_monthly_invoices-events out arriving 1 500 900 store refl

-- The invoice bills what was read, and the seven are gone.
billed-seven : (generate_monthly_invoices out arriving 1 500 900 store).0 ≡ ok tt
unfolding generate_monthly_invoices
billed-seven = refl

outstanding-seven :
    outstanding (generate_monthly_invoices out arriving 1 500 900 store).1.customers ≡ 0
unfolding generate_monthly_invoices
outstanding-seven = refl
