-- ===== src/Billing/Invoices.antt =====
-- Invoice numbers, which credits.service.ts and subscription.service.ts form in the same way.
use webhook_backend.Prelude.{ℕ, ◌+◌, ◌≤◌, ◌<◌, List, [], ◌∷◌, length, All, some, arith}
use webhook_backend.Billing.Documents.{Db, Invoice, InvoiceNumber, InvoiceType}
use webhook_backend.Billing.External.{External}
use Prim.Native.String.{String}

-- `nextInvoiceNumber`: one more than the number of stored invoices, in the year of the call.
unfoldable pub next_invoice_number : ℕ → Db → InvoiceNumber
next_invoice_number year db = record { year = year; number = length db.invoices + 1 }

-- A paid invoice over one line item, with GST on top.
unfoldable pub paid_invoice :
    External → InvoiceType → ℕ → ℕ → String → ℕ → ℕ → InvoiceNumber → Invoice
paid_invoice ext type user price payment_id period_start period_end invoice_number = record {
  user_id = user;
  type = type;
  invoice_number = invoice_number;
  period_start = period_start;
  period_end = period_end;
  subtotal = price;
  tax = ext.gst price;
  total = price + ext.gst price;
  razorpay_payment_id = some payment_id;
}

-- Every stored invoice has a number between 1 and the count, none of them twice: each is below
-- the length of the log that it heads.
abbrev pub HasDistinctNumbers : List Invoice → Type 0
HasDistinctNumbers [] = Unit
HasDistinctNumbers (i ∷ is) =
    All (λ j. j.invoice_number.number < i.invoice_number.number) is
    × (i.invoice_number.number ≤ length is + 1)
    × HasDistinctNumbers is

pub All-lt-next :
    (n : ℕ) (is : List Invoice)
    → HasDistinctNumbers is
    → length is ≤ n
    → All (λ j. j.invoice_number.number < n + 1) is
All-lt-next n [] h le = tt
All-lt-next n (i ∷ is) h le = (omega arith, All-lt-next n is h.2 (omega arith))
