-- ===== src/Billing/Credits/Purchase.antt =====
-- Buying credits (`verifyPurchase`): who is credited, how much, and what a refused write leaves.
use text.Mathlib.Text.{◌==◌ as str_eq}
use webhook_backend.Prelude.{
  ℕ, ◌≡◌, ◌≢◌, refl, Bool, true, false, some, ◌∷◌, ℤ, pos, arith, find_by_id, find_by_id-update,
  update_by_id, ok, err, Bool-cases, inl, inr, ◌⊎◌, Option-cases, ◌+◌, Exception,
}
use webhook_backend.Billing.Documents.{
  Db, CreditTransaction, CreditPackage, purchase, Subscription, InvoiceType,
  billing_payment_success, trial_expired, cancelled, credit_only,
}
use webhook_backend.Billing.External.{External}
use webhook_backend.Billing.Invoices.{
  HasDistinctNumbers, All-lt-next, next_invoice_number, paid_invoice,
}
use webhook_backend.Billing.Credits.{
  credit, balance_doc, top_up, verify_purchase, settle_purchase, PurchaseDto, signed_body,
  to_credit_only,
}
use webhook_backend.Billing.Credits.Ledger.{
  balance_doc-upsert, top_up_transaction, top_up-stored, top_up-refused, with_credit,
}

-- The signature is Razorpay's, over the order and the payment.
abbrev pub is_signed : External → PurchaseDto → Bool
is_signed ext dto = str_eq (ext.hmac (signed_body dto.order_id dto.payment_id)) dto.signature

abbrev pub credits_of : CreditPackage → ℤ
credits_of pkg = pos (pkg.credits + pkg.bonus_credits)

-- The transaction that a purchase of `pkg` writes.
abbrev pub purchase_transaction : ℕ → PurchaseDto → CreditPackage → Db → CreditTransaction
purchase_transaction user dto pkg db =
    top_up_transaction user (credits_of pkg) purchase (some dto.package_id) (some dto.payment_id) db

-- A request with a signature that is not Razorpay's changes nothing.
pub verify_purchase-unsigned :
    (ext : External) (user : ℕ) (dto : PurchaseDto) (year now : ℕ) (db : Db)
    → is_signed ext dto ≡ false
    → verify_purchase ext user dto year now db ≡ (err Exception.bad_request, db)
unfolding verify_purchase
verify_purchase-unsigned ext user dto year now db h = ground arith

-- What `settle_purchase` does to the database.
abbrev settled_db : External → ℕ → PurchaseDto → CreditPackage → (year now : ℕ) → Db → Db
settled_db ext user dto pkg year now db = record db {
  invoices =
      paid_invoice ext InvoiceType.credit user pkg.price dto.payment_id now now
        (next_invoice_number year db)
      ∷ db.invoices;
  subscriptions = update_by_id user to_credit_only db.subscriptions;
  audit = (record { user_id = user; action = billing_payment_success }) ∷ db.audit;
}

settle_purchase-run :
    (ext : External) (user : ℕ) (dto : PurchaseDto) (pkg : CreditPackage) (year now : ℕ) (db : Db)
    → settle_purchase ext user dto pkg year now db
      ≡ (ok (next_invoice_number year db), settled_db ext user dto pkg year now db)
unfolding settle_purchase
settle_purchase-run ext user dto pkg year now db = refl

module _ (ext : External) (user : ℕ) (dto : PurchaseDto) (year now : ℕ) (db : Db)
    {pkg : CreditPackage} (signed : is_signed ext dto ≡ true)
    (found : find_by_id dto.package_id db.packages ≡ some pkg) where
  abbrev credited_db : Db
  credited_db = record db {
    balances = (with_credit user (credits_of pkg) db).balances;
    transactions = purchase_transaction user dto pkg db ∷ db.transactions;
  }

  verify_purchase-run :
      ext.accepts (purchase_transaction user dto pkg db) db.transactions ≡ true
      → verify_purchase ext user dto year now db ≡ (
        ok (
          (credit (credits_of pkg) (balance_doc user db)).balance,
          next_invoice_number year credited_db,
        ),
        settled_db ext user dto pkg year now credited_db,
      )
  unfolding verify_purchase
  verify_purchase-run accepted = ground (
    arith,
    top_up-stored ext user (credits_of pkg) purchase (some dto.package_id) (some dto.payment_id) db,
    settle_purchase-run ext user dto pkg year now credited_db,
  )

  verify_purchase-run_refused :
      ext.accepts (purchase_transaction user dto pkg db) db.transactions ≡ false
      → verify_purchase ext user dto year now db
        ≡ (err Exception.duplicate_key, with_credit user (credits_of pkg) db)
  unfolding verify_purchase
  verify_purchase-run_refused refused = ground (
    arith,
    top_up-refused ext user (credits_of pkg) purchase (some dto.package_id) (some dto.payment_id)
        db,
  )

  -- A signed purchase whose transaction is stored adds the credits and the bonus of the package that
  -- the request names to the user's balance and to no other, writes that one transaction, and
  -- heads the invoices with one of the package's price plus GST under the next number.
  pub verify_purchase-credits :
      (other : ℕ)
      → ext.accepts (purchase_transaction user dto pkg db) db.transactions ≡ true
      → user ≢ other
      → let (r, db') = verify_purchase ext user dto year now db in
        (balance_doc user db' ≡ credit (credits_of pkg) (balance_doc user db))
        × (balance_doc other db' ≡ balance_doc other db)
        × (db'.transactions ≡ purchase_transaction user dto pkg db ∷ db.transactions)
        × (db'.invoices
            ≡ paid_invoice ext InvoiceType.credit user pkg.price dto.payment_id now now
                (next_invoice_number year db)
              ∷ db.invoices)
  unfolding next_invoice_number
  verify_purchase-credits other accepted ne = rw (verify_purchase-run accepted) (
    ground (arith, balance_doc-upsert user user (credit (credits_of pkg)) db),
    ground (arith, balance_doc-upsert user other (credit (credits_of pkg)) db),
    refl,
    refl,
  )

  -- A signed purchase whose transaction the store refuses, as the unique index on the payment id
  -- does when a payment is sent twice, answers with an error, writes no transaction and no
  -- invoice, and still adds the credits to the balance.
  pub verify_purchase-refused :
      ext.accepts (purchase_transaction user dto pkg db) db.transactions ≡ false
      → let (r, db') = verify_purchase ext user dto year now db in
        (r ≡ err Exception.duplicate_key)
        × (balance_doc user db' ≡ credit (credits_of pkg) (balance_doc user db))
        × (db'.transactions ≡ db.transactions)
        × (db'.invoices ≡ db.invoices)
  verify_purchase-refused refused =
      rw (verify_purchase-run_refused refused) (
        refl,
        ground (arith, balance_doc-upsert user user (credit (credits_of pkg)) db),
        refl,
        refl,
      )

verify_purchase-invoices :
    (ext : External) (user : ℕ) (dto : PurchaseDto) (year now : ℕ) (db : Db)
    → let is = (verify_purchase ext user dto year now db).1.invoices in
      (is ≡ db.invoices)
      ⊎ ((price : ℕ) × (is
            ≡ paid_invoice ext InvoiceType.credit user price dto.payment_id now now
                (next_invoice_number year db)
              ∷ db.invoices))
unfolding verify_purchase top_up settle_purchase next_invoice_number
verify_purchase-invoices ext user dto year now db =
    elim (Option-cases (find_by_id dto.package_id db.packages)) [
      | inl missing ↦ inl (ground arith)
      | inr (pkg, found) ↦ elim (Bool-cases (is_signed ext dto)) [
        | inl signed ↦
            elim (Bool-cases (ext.accepts (purchase_transaction user dto pkg db) db.transactions)) [
              | inl accepted ↦ inr (
                pkg.price,
                rw (verify_purchase-run ext user dto year now db signed found accepted) refl,
              )
              | inr refused ↦ inl (
                  rw (verify_purchase-run_refused ext user dto year now db signed found refused)
                    refl)
            ]
        | inr unsigned ↦ inl (ground arith)
      ]
    ]

-- A purchase keeps all invoice numbers distinct and at most their count, whatever it answers.
pub verify_purchase-HasDistinctNumbers :
    (ext : External) (user : ℕ) (dto : PurchaseDto) (year now : ℕ) (db : Db)
    → HasDistinctNumbers db.invoices
    → HasDistinctNumbers (verify_purchase ext user dto year now db).1.invoices
unfolding next_invoice_number paid_invoice
verify_purchase-HasDistinctNumbers ext user dto year now db h =
    elim (verify_purchase-invoices ext user dto year now db) [
      | inl same ↦ rw same h
      | inr (price, added) ↦ rw added (All-lt-next _ db.invoices h (omega arith), omega arith, h)
    ]

-- A purchase moves a subscription only from trial_expired or cancelled to credit_only.
pub verify_purchase-subscription :
    (ext : External) (user u : ℕ) (dto : PurchaseDto) (year now : ℕ) (db : Db) {s : Subscription}
    → find_by_id u db.subscriptions ≡ some s
    → (find_by_id u (verify_purchase ext user dto year now db).1.subscriptions ≡ some s)
      ⊎ ((user ≡ u)
          × ((s.status ≡ trial_expired) ⊎ (s.status ≡ cancelled))
          × (find_by_id u (verify_purchase ext user dto year now db).1.subscriptions
              ≡ some (record s { status = credit_only })))
unfolding verify_purchase top_up settle_purchase
verify_purchase-subscription ext user u dto year now db {s} h =
    ground (arith, find_by_id-update user u to_credit_only db.subscriptions)
