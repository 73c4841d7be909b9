-- ===== src/Billing/Resellers/Suspension.antt =====
-- What src/modules/billing/reseller.service.ts does to the access of another user.
use webhook_backend.Prelude.{
  ℕ, ◌≡◌, refl, sym, ap, subst, ◌∙◌, some, none, ◌∷◌, Collection, find_by_id, update_by_id,
  upsert_by_id, or_default, find_by_id-upsert, find_by_id-update_self, is_some, ◌==◌, ok, Exception,
  Action, or_throw, throw_if, gets, modify, ◌>>=◌, ◌>>◌, arith, if-true,
}
use webhook_backend.Billing.Documents.{Subscription, suspended}
use webhook_backend.Billing.Trial.{is_allowed, deny, account_suspended}
use webhook_backend.Billing.Trial.Access.{is_allowed-suspended}
use webhook_backend.Billing.Upgrades.{default_subscription}
use webhook_backend.Billing.Resellers.{
  Store, Outside, CustomerDto, find_email, find_customer, new_customer, take_over,
  upsert_subscription, add_customer, suspend_customer,
}

find-upsert_self :
    {V : Type 0} (k : ℕ) (f : V → V) (d : V) (c : Collection V)
    → find_by_id k (upsert_by_id k f d c) ≡ some (f (or_default (find_by_id k c) d))
find-upsert_self k f d c = find_by_id-upsert k k f d c ∙ if-true {b = k == k} _ (ground arith)

-- The store after `addCustomer`.
abbrev added : Outside → (id reseller user : ℕ) → CustomerDto → (now period : ℕ) → Store → Store
added out id reseller user dto now period s = record s {
  customers = (id, new_customer reseller user dto now period) ∷ s.customers;
  db = upsert_subscription user (take_over dto now period) s.db;
  reseller_of = upsert_by_id user (λ _. reseller) reseller s.reseller_of;
}

add_customer-adds :
    (out : Outside) (id reseller user : ℕ) (dto : CustomerDto) (now period : ℕ) (s : Store)
    → find_email (out.to_lower_case dto.customer_email) s.emails ≡ some user
    → find_customer reseller user s.customers ≡ none
    → add_customer out id reseller dto now period s
      ≡ (ok tt, added out id reseller user dto now period s)
unfolding add_customer
add_customer-adds out id reseller user dto now period s found new =
    ap (λ o. (or_throw o Exception.not_found >>= add) s) found
    ∙ ap (λ o. (throw_if (is_some o) Exception.conflict >> write user) s) new
  where
    write : ℕ → Action Store (Unit {0})
    write customer = modify (added out id reseller customer dto now period)

    add : ℕ → Action Store (Unit {0})
    add customer = do
      exists_already ← gets (λ s. is_some (find_customer reseller customer s.customers))
      throw_if exists_already Exception.conflict
      write customer

abbrev suspend : Subscription → Subscription
suspend sub = record sub { status = suspended }

suspend_customer-suspends :
    (reseller user now id : ℕ) (s : Store)
    → find_customer reseller user s.customers ≡ some id
    → find_by_id user s.reseller_of ≡ some reseller
    → ((suspend_customer reseller user now s).0 ≡ ok tt)
      × ((suspend_customer reseller user now s).1.db.subscriptions
          ≡ update_by_id user suspend s.db.subscriptions)
unfolding suspend_customer
suspend_customer-suspends reseller user now id s known mine = (ground arith, ground arith)

-- Any caller who is not yet their reseller can take any user, by the address alone, as a customer,
-- whatever their subscription, and suspend them: from then on that user is denied access as
-- suspended, at every time.
pub stranger_suspends :
    (out : Outside) (id reseller user : ℕ) (dto : CustomerDto) (now period later : ℕ) (s : Store)
    → find_email (out.to_lower_case dto.customer_email) s.emails ≡ some user
    → find_customer reseller user s.customers ≡ none
    → let s1 = (add_customer out id reseller dto now period s).1 in
      let (r, s2) = suspend_customer reseller user now s1 in
      (r ≡ ok tt) × (is_allowed user later s2.db ≡ (ok (deny account_suspended), s2.db))
stranger_suspends out id reseller user dto now period later s found new =
    let s1 = added out id reseller user dto now period s in
    let adds = add_customer-adds out id reseller user dto now period s found new in
    let known : find_customer reseller user s1.customers ≡ some id = ground arith in
    let mine = find-upsert_self user (λ _. reseller) reseller s.reseller_of in
    let (done, writes) = suspend_customer-suspends reseller user now id s1 known mine in
    let taken =
      find-upsert_self user (take_over dto now period) default_subscription s.db.subscriptions in
    (
      ap (λ p. (suspend_customer reseller user now p.1).0) adds ∙ done,
      subst
          (λ p.
            is_allowed user later (suspend_customer reseller user now p.1).1.db
            ≡ (ok (deny account_suspended), (suspend_customer reseller user now p.1).1.db))
          (sym adds)
          (is_allowed-suspended user later (suspend_customer reseller user now s1).1.db
            (ap (find_by_id user) writes
              ∙ find_by_id-update_self user suspend s1.db.subscriptions taken)
            refl),
    )
