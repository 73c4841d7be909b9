-- ===== src/Billing/External.antt =====
-- What the billing services take from outside the repository: Node's crypto, double-precision
-- arithmetic, and the database's unique indexes.
use Prim.Native.String.{String}
use webhook_backend.Prelude.{ℕ, Bool, List}
use webhook_backend.Billing.Documents.{CreditTransaction}

pub record External : Type 0 where
  -- `createHmac('sha256', RAZORPAY_KEY_SECRET).update(body).digest('hex')`
  pub hmac : String → String
  -- `Math.round(price * 0.18)`
  pub gst : ℕ → ℕ
  -- Whether the unique indexes admit a transaction beside those already stored.
  pub accepts : CreditTransaction → List CreditTransaction → Bool
