-- ===== src/Billing/Plans.antt =====
-- SYSTEM_PLANS of subscription.service.ts, and the parts of a plan that a subscription copies.
use Prim.Native.String.{String}
use text.Mathlib.Text.{◌==◌ as str_eq}
use webhook_backend.Prelude.{ℕ, Option, some, none, ℤ, pos, negsuc, if◌then◌else◌}

pub record Plan : Type 0 where
  pub name : String
  pub price_monthly : ℕ
  pub events_per_month : ℤ
  pub endpoints_limit : ℤ
  pub retention_days : ℕ

-- -1, which stands for no limit.
abbrev pub unlimited : ℤ
unlimited = negsuc 0

abbrev pub trial_plan : Plan
trial_plan = record {
  name = "Free Trial";
  price_monthly = 0;
  events_per_month = pos 5_000;
  endpoints_limit = pos 5;
  retention_days = 7;
}

abbrev pub starter_plan : Plan
starter_plan = record {
  name = "Starter";
  price_monthly = 99900;
  events_per_month = pos 50_000;
  endpoints_limit = pos 20;
  retention_days = 30;
}

abbrev pub pro_plan : Plan
pro_plan = record {
  name = "Pro";
  price_monthly = 299900;
  events_per_month = pos 500_000;
  endpoints_limit = pos 100;
  retention_days = 90;
}

abbrev pub enterprise_plan : Plan
enterprise_plan = record {
  name = "Enterprise";
  price_monthly = 0;
  events_per_month = unlimited;
  endpoints_limit = unlimited;
  retention_days = 365;
}

-- `SYSTEM_PLANS[planId]`
unfoldable pub system_plan : String → Option Plan
system_plan id =
    if str_eq id "trial"
    then some trial_plan
    else if str_eq id "starter"
    then some starter_plan
    else if str_eq id "pro"
    then some pro_plan
    else if str_eq id "enterprise"
    then some enterprise_plan
    else none
