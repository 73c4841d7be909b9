-- ===== src/Billing/Upgrades/Cancellation.antt =====
-- What cancelling a subscription does to access (`cancelSubscription`).
use Prim.Native.String.{String}
use webhook_backend.Prelude.{
  ℕ, ◌≡◌, refl, some, find_by_id, find_by_id-update_self, ok, arith, Option-cases, inl, inr,
}
use webhook_backend.Billing.Documents.{Db, Subscription}
use webhook_backend.Billing.Trial.{is_allowed, deny, subscription_cancelled}
use webhook_backend.Billing.Trial.Access.{is_allowed-cancelled}
use webhook_backend.Billing.Upgrades.{cancel_subscription, cancel}

cancel_subscription-writes :
    (user now : ℕ) (reason : String) (db : Db)
    → (cancel_subscription user reason now db).0 ≡ ok tt
    → (s : Subscription) × (find_by_id user (cancel_subscription user reason now db).1.subscriptions
        ≡ some (cancel now reason s))
unfolding cancel_subscription
cancel_subscription-writes user now reason db e =
    elim (Option-cases (find_by_id user db.subscriptions)) [
      | inl absent ↦ (absurd (ground arith), absurd (ground arith))
      | inr (s, found) ↦ (
        s,
        ground (arith, find_by_id-update_self user (cancel now reason) db.subscriptions found),
      )
    ]

-- The moment a cancellation succeeds the user is kept out, at every time, with the reason
-- subscription_cancelled: the rest of a paid period is lost.
pub cancel_subscription_denies :
    (user now later : ℕ) (reason : String) (db : Db)
    → (cancel_subscription user reason now db).0 ≡ ok tt
    → let db' = (cancel_subscription user reason now db).1 in
      is_allowed user later db' ≡ (ok (deny subscription_cancelled), db')
cancel_subscription_denies user now later reason db e =
    let (s, found) = cancel_subscription-writes user now reason db e in
    is_allowed-cancelled user later (cancel_subscription user reason now db).1 found refl
