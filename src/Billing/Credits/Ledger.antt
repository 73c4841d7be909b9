-- ===== src/Billing/Credits/Ledger.antt =====
-- The log of transactions accounts for every balance (credits.service.ts).
use Prim.Native.String.{String}
use webhook_backend.Prelude.{
  ℕ, ◌≡◌, true, false, Option, none, List, [], ◌∷◌, ℤ, pos, ◌+ℤ◌, int_laws, arith, ◌==◌,
  if◌then◌else◌, upsert_by_id, find_by_id, find_by_id-upsert, or_default, ok, err, Exception,
}
use webhook_backend.Billing.Documents.{
  Db, CreditBalance, empty_balance, CreditTransaction, CreditTxType,
}
use webhook_backend.Billing.External.{External}
use webhook_backend.Billing.Credits.{credit, balance_doc, top_up}

-- What a user's transactions add up to.
abbrev pub tx_sum : ℕ → List CreditTransaction → ℤ
tx_sum u [] = pos 0
tx_sum u (t ∷ ts) = if t.user_id == u then t.amount +ℤ tx_sum u ts else tx_sum u ts

abbrev pub IsBalanced : Db → Type 0
IsBalanced db = (u : ℕ) → (balance_doc u db).balance ≡ tx_sum u db.transactions

pub balance_doc-upsert :
    (user u : ℕ) (f : CreditBalance → CreditBalance) (db : Db)
    → or_default (find_by_id u (upsert_by_id user f empty_balance db.balances)) empty_balance
      ≡ (if user == u then f (balance_doc user db) else balance_doc u db)
balance_doc-upsert user u f db =
    ground (arith, find_by_id-upsert user u f empty_balance db.balances)

-- A top-up that returns keeps every user's balance equal to the sum of that user's transactions, if
-- it was before.
pub top_up-IsBalanced :
    (ext : External) (user : ℕ) (amount : ℤ) (type : CreditTxType) (package_id : Option ℕ)
    (payment_id : Option String) (db : Db) {bal : CreditBalance}
    → IsBalanced db
    → (top_up ext user amount type package_id payment_id db).0 ≡ ok bal
    → IsBalanced (top_up ext user amount type package_id payment_id db).1
unfolding top_up
top_up-IsBalanced ext user amount type package_id payment_id db h e u =
    grind (int_laws, balance_doc-upsert user u (credit amount) db, h u, h user)

-- The transaction that a top-up writes.
abbrev pub top_up_transaction :
    ℕ → ℤ → CreditTxType → Option ℕ → Option String → Db → CreditTransaction
top_up_transaction user amount type package_id payment_id db = record {
  user_id = user;
  type = type;
  amount = amount;
  balance_after = (balance_doc user db).balance +ℤ amount;
  package_id = package_id;
  razorpay_payment_id = payment_id;
  project_id = none;
  endpoint_id = none;
  delivery_log_id = none;
}

abbrev pub with_credit : ℕ → ℤ → Db → Db
with_credit user amount db = record db {
  balances = upsert_by_id user (credit amount) empty_balance db.balances;
}

module _ (ext : External) (user : ℕ) (amount : ℤ) (type : CreditTxType) (package_id : Option ℕ)
    (payment_id : Option String) (db : Db) where
  balance_doc-with_credit :
      balance_doc user (with_credit user amount db) ≡ credit amount (balance_doc user db)
  balance_doc-with_credit = ground (arith, balance_doc-upsert user user (credit amount) db)

  pub top_up-stored :
      ext.accepts (top_up_transaction user amount type package_id payment_id db) db.transactions
        ≡ true
      → top_up ext user amount type package_id payment_id db ≡ (
        ok (credit amount (balance_doc user db)),
        record db {
          balances = (with_credit user amount db).balances;
          transactions =
              top_up_transaction user amount type package_id payment_id db ∷ db.transactions;
        },
      )
  unfolding top_up
  top_up-stored h = ground (arith, balance_doc-with_credit)

  pub top_up-refused :
      ext.accepts (top_up_transaction user amount type package_id payment_id db) db.transactions
        ≡ false
      → top_up ext user amount type package_id payment_id db
        ≡ (err Exception.duplicate_key, with_credit user amount db)
  unfolding top_up
  top_up-refused h = ground (arith, balance_doc-with_credit)
