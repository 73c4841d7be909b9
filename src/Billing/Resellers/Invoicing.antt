-- ===== src/Billing/Resellers/Invoicing.antt =====
-- What `generateMonthlyInvoices` of src/modules/billing/reseller.service.ts bills.
use webhook_backend.Prelude.{
  ℕ, suc, ◌+◌, ◌≡◌, refl, some, List, [], ◌∷◌, ◌++◌, length, Collection, find_by_id,
  find_by_id-update_self, arith, Bool-cases, inl, inr, true, ok, if◌then◌else◌,
}
use webhook_backend.Billing.Resellers.{
  Store, Outside, Reseller, ResellerCustomer, UsageInvoice, usage_invoice, has_number, is_billed,
  bill_each, total_of, collect, paid_total, get_reseller_revenue, generate_monthly_invoices,
}

-- The events that are not billed yet.
abbrev pub outstanding : Collection ResellerCustomer → ℕ
outstanding [] = 0
outstanding ((id, rc) ∷ customers) = rc.current_month_events + outstanding customers

abbrev pub events_of : List UsageInvoice → ℕ
events_of [] = 0
events_of (i ∷ invoices) = i.events_delivered + events_of invoices

events_of-append : (xs ys : List UsageInvoice) → events_of (xs ++ ys) ≡ events_of xs + events_of ys
events_of-append [] ys = omega arith
events_of-append (x ∷ xs) ys = omega (arith, events_of-append xs ys)

-- The events that arrive during the run, and those of them that arrive at an entry that is billed.
abbrev pub arrived : (arriving : ℕ → ℕ) → Collection ResellerCustomer → ℕ
arrived arriving [] = 0
arrived arriving ((id, rc) ∷ customers) = arriving id + arrived arriving customers

abbrev pub dropped : (arriving : ℕ → ℕ) → (reseller : ℕ) → Collection ResellerCustomer → ℕ
dropped arriving reseller [] = 0
dropped arriving reseller ((id, rc) ∷ customers) =
    (if is_billed reseller rc then arriving id else 0) + dropped arriving reseller customers

bill_each-events :
    (out : Outside) (arriving : ℕ → ℕ) (reseller now period : ℕ) (stored : List UsageInvoice)
    (customers : Collection ResellerCustomer)
    → let (ends, after, billed) = bill_each out arriving reseller now period stored customers in
      ends ≡ true
      → events_of billed + outstanding after + dropped arriving reseller customers
        ≡ outstanding customers + arrived arriving customers
bill_each-events out arriving reseller now period stored [] h = omega arith
bill_each-events out arriving reseller now period stored ((id, rc) ∷ customers) h =
    elim (Bool-cases (is_billed reseller rc)) [
      | inr skipped ↦
          let rest = bill_each-events out arriving reseller now period stored customers in
          ground (arith, skipped, rest)
      | inl billed ↦ elim (Bool-cases (has_number (suc (length stored)) stored)) [
        | inl taken ↦ absurd (ground (arith, h, billed, taken))
        | inr fresh ↦
            let next = stored ++ usage_invoice out (suc (length stored)) rc ∷ [] in
            let rest = bill_each-events out arriving reseller now period next customers in
            ground (arith, billed, fresh, rest)
      ]
    ]

-- When the run comes to its end, every event is billed once, still outstanding, or dropped, and the
-- dropped ones are exactly those that arrive at an entry that is billed after the entry was read and
-- before its count is set to zero: with what arrives meanwhile, what all invoices bill and what is
-- outstanding with the customers is together the same before and after, but for those.
pub generate_monthly_invoices-events :
    (out : Outside) (arriving : ℕ → ℕ) (reseller now period : ℕ) (s : Store)
    → let (r, s') = generate_monthly_invoices out arriving reseller now period s in
      r ≡ ok tt
      → events_of s'.invoices + outstanding s'.customers + dropped arriving reseller s.customers
        ≡ events_of s.invoices + outstanding s.customers + arrived arriving s.customers
unfolding generate_monthly_invoices
generate_monthly_invoices-events out arriving reseller now period s h =
    let (ends, after, billed) = bill_each out arriving reseller now period s.invoices s.customers in
    elim (Bool-cases ends) [
      | inr refused ↦ absurd (ground (arith, h, refused))
      | inl all_done ↦ ground (
        arith,
        all_done,
        events_of-append s.invoices billed,
        bill_each-events out arriving reseller now period s.invoices s.customers,
      )
    ]

paid_total-append :
    (reseller : ℕ) (xs ys : List UsageInvoice)
    → paid_total reseller (xs ++ ys) ≡ paid_total reseller xs + paid_total reseller ys
paid_total-append reseller [] ys = omega arith
paid_total-append reseller (i ∷ xs) ys = ground (arith, paid_total-append reseller xs ys)

bill_each-unpaid :
    (out : Outside) (arriving : ℕ → ℕ) (reseller who now period : ℕ) (stored : List UsageInvoice)
    (customers : Collection ResellerCustomer)
    → paid_total who (bill_each out arriving reseller now period stored customers).2 ≡ 0
bill_each-unpaid out arriving reseller who now period stored [] = refl
bill_each-unpaid out arriving reseller who now period stored ((id, rc) ∷ customers) =
    elim (Bool-cases (is_billed reseller rc)) [
      | inr skipped ↦
          ground
            (arith, skipped, bill_each-unpaid out arriving reseller who now period stored customers)
      | inl billed ↦ elim (Bool-cases (has_number (suc (length stored)) stored)) [
        | inl taken ↦ ground (arith, billed, taken)
        | inr fresh ↦
            let next = stored ++ usage_invoice out (suc (length stored)) rc ∷ [] in
            ground (
              arith,
              billed,
              fresh,
              bill_each-unpaid out arriving reseller who now period next customers,
            )
      ]
    ]

-- The invoices are open when they are made, so what `getResellerRevenue` answers stays the same,
-- while the reseller's own count of collected revenue grows by their full total, if the run comes to
-- its end.
pub generate_monthly_invoices-revenue :
    (out : Outside) (arriving : ℕ → ℕ) (reseller now period : ℕ) (s : Store) {r : Reseller}
    → find_by_id reseller s.resellers ≡ some r
    → let (answer, s') = generate_monthly_invoices out arriving reseller now period s in
      let billed = (bill_each out arriving reseller now period s.invoices s.customers).2 in
      answer ≡ ok tt
      → (get_reseller_revenue reseller s' ≡ get_reseller_revenue reseller s)
        × (find_by_id reseller s'.resellers ≡ some (collect (total_of billed) r))
unfolding generate_monthly_invoices
generate_monthly_invoices-revenue out arriving reseller now period s found done =
    let (ends, after, billed) = bill_each out arriving reseller now period s.invoices s.customers in
    elim (Bool-cases ends) [
      | inr refused ↦ absurd (ground (arith, done, refused))
      | inl all_done ↦ (
        ground (
          arith,
          all_done,
          paid_total-append reseller s.invoices billed,
          bill_each-unpaid out arriving reseller reseller now period s.invoices s.customers,
        ),
        ground (
          arith,
          all_done,
          find_by_id-update_self reseller (collect (total_of billed)) s.resellers found,
        ),
      )
    ]
