-- ===== src/Prelude/Actions.antt =====
-- A service method: the store it runs on, the exceptions it throws. What was written before a
-- throw stays written, so the store comes back with an exception too.
use mathlib.Core.Path.{◌≡◌, ap}
use mathlib.Core.Bool.{Bool, true, false}
use mathlib.Core.Option.{Option, none, some}

-- The exception classes of NestJS, without their messages; `type_error` is JavaScript's own, on a
-- property of null, and `duplicate_key` is the database's refusal of a document.
pub data Exception : Type 0 where
  bad_request not_found forbidden conflict unauthorized payment_required : Exception
  type_error duplicate_key unavailable : Exception

pub data Result {ℓ} (A : Type ℓ) : Type ℓ where
  ok : A → Result A
  err : Exception → Result A

abbrev pub Action : Type 0 → Type 0 → Type 0
Action S A = S → Result A × S

module _ {S : Type 0} where
  abbrev pub throw : {A : Type 0} → Exception → Action S A
  throw e s = (err e, s)

  abbrev pub pure : {A : Type 0} → A → Action S A
  pure a s = (ok a, s)

  abbrev pub gets : {A : Type 0} → (S → A) → Action S A
  gets f s = (ok (f s), s)

  abbrev pub modify : (S → S) → Action S (Unit {0})
  modify f s = (ok tt, f s)

  abbrev pub throw_if : Bool → Exception → Action S (Unit {0})
  throw_if true e s = (err e, s)
  throw_if false e s = (ok tt, s)

  abbrev pub or_throw : {A : Type 0} → Option A → Exception → Action S A
  or_throw none e s = (err e, s)
  or_throw (some a) e s = (ok a, s)

infixl 5 ◌>>=◌ ◌>>◌
abbrev pub ◌>>=◌ : {S A B : Type 0} → Action S A → (A → Action S B) → Action S B
◌>>=◌ m k s = let (r, s') = m s in elim r [ ok a ↦ k a s' | err e ↦ (err e, s') ]

abbrev pub ◌>>◌ : {S A B : Type 0} → Action S A → Action S B → Action S B
m >> k = m >>= λ _. k

-- A step whose answer is known.
pub bind-ok :
    {S A B : Type 0} (m : Action S A) (k : A → Action S B) {s s' : S} {a : A}
    → m s ≡ (ok a, s')
    → (m >>= k) s ≡ k a s'
bind-ok {S} {A} {B} m k h =
    ap
      (λ (p : Result A × S). elim p.0 as (λ _. Result B × S) [
        | ok a ↦ k a p.1
        | err e ↦ (err e, p.1)
      ])
      h

-- A step that throws.
pub bind-err :
    {S A B : Type 0} (m : Action S A) (k : A → Action S B) {s s' : S} {e : Exception}
    → m s ≡ (err e, s')
    → (m >>= k) s ≡ (err e, s')
bind-err {S} {A} {B} m k h =
    ap
      (λ (p : Result A × S). elim p.0 as (λ _. Result B × S) [
        | ok a ↦ k a p.1
        | err e ↦ (err e, p.1)
      ])
      h
