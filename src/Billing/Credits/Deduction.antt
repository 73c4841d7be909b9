-- ===== src/Billing/Credits/Deduction.antt =====
-- Paying for deliveries (`deductForDelivery`), whatever runs between its read and its write.
use webhook_backend.Prelude.{
  if◌then◌else◌, ◌==◌, ℕ, ◌≡◌, refl, true, false, ℤ, pos, ◌+ℤ◌, ◌≤ℤ◌, int_laws, arith, ◌==◌,
  if◌then◌else◌, find_by_id, find_by_id-update, or_default, update_by_id, ok, Bool-cases, inl, inr,
  ◌+◌,
}
use webhook_backend.Billing.Documents.{Db, empty_balance}
use webhook_backend.Billing.External.{External}
use webhook_backend.Billing.Credits.{
  debit, balance_doc, deduct_guarded, deduct_for_delivery, DeductOpts, DeductResult,
  insufficient_credits, concurrent_depletion, deducted, deduction_amount, can_pay,
}
use webhook_backend.Billing.Credits.Ledger.{IsBalanced}

-- No user owes credits.
abbrev pub IsSolvent : Db → Type 0
IsSolvent db = (u : ℕ) → pos 0 ≤ℤ (balance_doc u db).balance

balance_doc-debit :
    (user u amount : ℕ) (db : Db)
    → can_pay amount (find_by_id user db.balances) ≡ true
    → or_default (find_by_id u (update_by_id user (debit amount) db.balances)) empty_balance
      ≡ (if user == u then debit amount (balance_doc user db) else balance_doc u db)
balance_doc-debit user u amount db h =
    ground (arith, find_by_id-update user u (debit amount) db.balances)

can_pay-le :
    (amount user : ℕ) (db : Db)
    → can_pay amount (find_by_id user db.balances) ≡ true
    → pos amount ≤ℤ (balance_doc user db).balance
can_pay-le amount user db h = ground arith

guarded-IsSolvent :
    (ext : External) (user : ℕ) (opts : DeductOpts) (seen : ℤ) (db : Db)
    → IsSolvent db
    → IsSolvent (deduct_guarded ext user opts seen db).1
unfolding deduct_guarded
guarded-IsSolvent ext user opts seen db h u = grind (
  int_laws,
  balance_doc-debit user u (deduction_amount opts) db,
  can_pay-le (deduction_amount opts) user db,
  h u,
)

guarded-IsBalanced :
    (ext : External) (user : ℕ) (opts : DeductOpts) (seen : ℤ) (db : Db) {r : DeductResult}
    → IsBalanced db
    → (deduct_guarded ext user opts seen db).0 ≡ ok r
    → IsBalanced (deduct_guarded ext user opts seen db).1
unfolding deduct_guarded
guarded-IsBalanced ext user opts seen db h e u =
    grind (int_laws, balance_doc-debit user u (deduction_amount opts) db, h u, h user)

-- A deduction keeps every balance at zero or more, if what runs between its read and its write does.
pub deduct_for_delivery-IsSolvent :
    (ext : External) (user : ℕ) (opts : DeductOpts) (between : Db → Db) (db : Db)
    → ((d : Db) → IsSolvent d → IsSolvent (between d))
    → IsSolvent db
    → IsSolvent (deduct_for_delivery ext user opts between db).1
unfolding deduct_for_delivery
deduct_for_delivery-IsSolvent ext user opts between db keeps h =
    elim (Bool-cases (can_pay (deduction_amount opts) (find_by_id user db.balances))) [
      | inl pays ↦ rw pays (guarded-IsSolvent ext user opts _ (between db) (keeps db h))
      | inr short ↦ rw short h
    ]

-- A deduction that returns keeps every balance equal to the sum of its transactions, if what runs
-- between its read and its write does.
pub deduct_for_delivery-IsBalanced :
    (ext : External) (user : ℕ) (opts : DeductOpts) (between : Db → Db) (db : Db) {r : DeductResult}
    → ((d : Db) → IsBalanced d → IsBalanced (between d))
    → IsBalanced db
    → (deduct_for_delivery ext user opts between db).0 ≡ ok r
    → IsBalanced (deduct_for_delivery ext user opts between db).1
unfolding deduct_for_delivery
deduct_for_delivery-IsBalanced ext user opts between db keeps h =
    elim (Bool-cases (can_pay (deduction_amount opts) (find_by_id user db.balances))) [
      | inl pays ↦ rw pays (guarded-IsBalanced ext user opts _ (between db) (keeps db h))
      | inr short ↦ rw short (λ _. h)
    ]

-- What a call has done by its result, from the database `db` of its read and `mid` of its write.
abbrev pub Deducts : (user other : ℕ) → DeductOpts → (db mid db' : Db) → DeductResult → Type 0
Deducts user other opts db mid db' (insufficient_credits seen) =
    (db' ≡ db)
    × (seen ≡ (balance_doc user db).balance)
    × (can_pay (deduction_amount opts) (find_by_id user db.balances) ≡ false)
Deducts user other opts db mid db' (concurrent_depletion seen) =
    (db' ≡ mid)
    × (seen ≡ (balance_doc user db).balance)
    × (can_pay (deduction_amount opts) (find_by_id user mid.balances) ≡ false)
Deducts user other opts db mid db' (deducted left) =
    (left +ℤ pos (deduction_amount opts) ≡ (balance_doc user mid).balance)
    × (pos 0 ≤ℤ left)
    × ((balance_doc user db').balance ≡ left)
    × ((balance_doc user db').lifetime_used
        ≡ (balance_doc user mid).lifetime_used + deduction_amount opts)
    × (balance_doc other db'
        ≡ (if user == other then balance_doc user db' else balance_doc other mid))

guarded-Deducts :
    (ext : External) (user other : ℕ) (opts : DeductOpts) (db mid : Db) (r : DeductResult)
    → (deduct_guarded ext user opts (balance_doc user db).balance mid).0 ≡ ok r
    → Deducts user other opts db mid
        (deduct_guarded ext user opts (balance_doc user db).balance mid).1
        r
unfolding deduct_guarded
guarded-Deducts ext user other opts db mid (insufficient_credits seen) e = ground arith
guarded-Deducts ext user other opts db mid (concurrent_depletion seen) e = ground arith
guarded-Deducts ext user other opts db mid (deducted left) e = (
  grind (int_laws, balance_doc-debit user user (deduction_amount opts) mid),
  grind (
    int_laws,
    balance_doc-debit user user (deduction_amount opts) mid,
    can_pay-le (deduction_amount opts) user mid,
  ),
  ground arith,
  grind (int_laws, balance_doc-debit user user (deduction_amount opts) mid),
  ground (
    arith,
    balance_doc-debit user other (deduction_amount opts) mid,
    balance_doc-debit user user (deduction_amount opts) mid,
  ),
)

refused-Deducts :
    (user other : ℕ) (opts : DeductOpts) (db mid : Db) (r : DeductResult)
    → can_pay (deduction_amount opts) (find_by_id user db.balances) ≡ false
    → ok (insufficient_credits (balance_doc user db).balance) ≡ ok r
    → Deducts user other opts db mid db r
refused-Deducts user other opts db mid (insufficient_credits seen) short e = (refl, cc, short)
refused-Deducts user other opts db mid (concurrent_depletion seen) short e = cc
refused-Deducts user other opts db mid (deducted left) short e = cc

-- A deduction that returns has refused for lack of credits and changed nothing of its own, or has
-- taken exactly one credit for the delivery and one for each retry from this user alone, left a
-- balance of zero or more, and counted the credits as used.
pub deduct_for_delivery-Deducts :
    (ext : External) (user other : ℕ) (opts : DeductOpts) (between : Db → Db) (db : Db)
    (r : DeductResult)
    → (deduct_for_delivery ext user opts between db).0 ≡ ok r
    → Deducts user other opts db (between db) (deduct_for_delivery ext user opts between db).1 r
unfolding deduct_for_delivery
deduct_for_delivery-Deducts ext user other opts between db r =
    elim (Bool-cases (can_pay (deduction_amount opts) (find_by_id user db.balances))) [
      | inl pays ↦ rw pays (guarded-Deducts ext user other opts db (between db) r)
      | inr short ↦
          rw (short, deduct_for_delivery) (refused-Deducts user other opts db (between db) r short)
    ]
