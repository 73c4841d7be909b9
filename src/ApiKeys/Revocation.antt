-- ===== src/ApiKeys/Revocation.antt =====
-- What a revoked key of src/modules/apikeys/apikeys.service.ts can still do.
use webhook_backend.Prelude.{
  ℕ, ◌≡◌, ◌≢◌, refl, sym, ◌∙◌, subst, inl, inr, true, false, Option, some, none, List, [], ◌∷◌, All,
  IsKeyed, Lacks, find-Lacks, find_by_id, update_by_id, delete_key, find, ◌==◌, Result, ok, err,
  arith, Bool-cases,
}
use webhook_backend.ApiKeys.{
  ApiKey, KeyDto, Keys, create, own_key, deactivate, if_own, revoke, delete, has_expired, count_use,
  use_key, is_match, validate_key,
}

-- Every document of the id is inactive.
abbrev pub IsInactive : ℕ → Keys → Type 0
IsInactive id keys = All (λ (d : ℕ × ApiKey). d.0 ≡ id → d.1.is_active ≡ false) keys

-- A call of the service
pub data Call : Type 0 where
  creating : (id user raw : ℕ) → KeyDto → Call
  revoking deleting : (user id : ℕ) → Call
  validating : (raw now : ℕ) → Call

abbrev pub step : (hash : ℕ → ℕ) → Call → Keys → Keys
step hash (creating id user raw dto) keys = create hash id user raw dto keys
step hash (revoking user id) keys = (revoke user id keys).1
step hash (deleting user id) keys = (delete user id keys).1
step hash (validating raw now) keys = (validate_key hash raw now keys).1

abbrev pub run : (hash : ℕ → ℕ) → List Call → Keys → Keys
run hash [] keys = keys
run hash (c ∷ calls) keys = run hash calls (step hash c keys)

-- A document that is created has another id.
abbrev pub IsOther : ℕ → Call → Type 0
IsOther id (creating j user raw dto) = j ≢ id
IsOther id (revoking user j) = Unit
IsOther id (deleting user j) = Unit
IsOther id (validating raw now) = Unit

update-IsInactive :
    (id j : ℕ) (f : ApiKey → ApiKey) (keys : Keys)
    → ((k : ApiKey) → k.is_active ≡ false → (f k).is_active ≡ false)
    → IsInactive id keys
    → IsInactive id (update_by_id j f keys)
update-IsInactive id j f [] keeps h = tt
update-IsInactive id j f ((i, k) ∷ keys) keeps (h, hs) = elim (Bool-cases (i == j)) [
  | inl same ↦ rw same ((λ e. keeps k (h e)), hs)
  | inr other ↦ rw other (h, update-IsInactive id j f keys keeps hs)
]

delete-IsInactive :
    (id j : ℕ) (keys : Keys) → IsInactive id keys → IsInactive id (delete_key j keys)
delete-IsInactive id j [] h = tt
delete-IsInactive id j ((i, k) ∷ keys) (h, hs) = elim (Bool-cases (i == j)) [
  | inl same ↦ rw same (delete-IsInactive id j keys hs)
  | inr other ↦ rw other (h, delete-IsInactive id j keys hs)
]

if_own-IsInactive :
    (id : ℕ) (r : Result ApiKey) (changed keys : Keys)
    → IsInactive id changed
    → IsInactive id keys
    → IsInactive id (if_own r changed keys).1
if_own-IsInactive id (err e) changed keys c h = h
if_own-IsInactive id (ok k) changed keys c h = c

use-IsInactive :
    (id now : ℕ) (o : Option (ℕ × ApiKey)) (keys : Keys)
    → IsInactive id keys
    → IsInactive id (use_key now o keys).1
use-IsInactive id now none keys h = h
use-IsInactive id now (some (j, k)) keys h = elim (Bool-cases (has_expired now k.expires_at)) [
  | inl late ↦ rw late (update-IsInactive id j deactivate keys (λ k e. refl) h)
  | inr fresh ↦ rw fresh (update-IsInactive id j (count_use now) keys (λ k e. e) h)
]

step-IsInactive :
    (hash : ℕ → ℕ) (id : ℕ) (c : Call) (keys : Keys)
    → IsOther id c
    → IsInactive id keys
    → IsInactive id (step hash c keys)
unfolding revoke delete validate_key
step-IsInactive hash id (creating j user raw dto) keys ne h = ((λ e. absurd (ne e)), h)
step-IsInactive hash id (revoking user j) keys ne h =
    if_own-IsInactive id (own_key user (find_by_id j keys)) (update_by_id j deactivate keys) keys
      (update-IsInactive id j deactivate keys (λ k e. refl) h) h
step-IsInactive hash id (deleting user j) keys ne h =
    if_own-IsInactive id (own_key user (find_by_id j keys)) (delete_key j keys) keys
      (delete-IsInactive id j keys h) h
step-IsInactive hash id (validating raw now) keys ne h =
    use-IsInactive id now (find (is_match (hash raw)) keys) keys h

run-IsInactive :
    (hash : ℕ → ℕ) (id : ℕ) (calls : List Call) (keys : Keys)
    → All (IsOther id) calls
    → IsInactive id keys
    → IsInactive id (run hash calls keys)
run-IsInactive hash id [] keys others h = h
run-IsInactive hash id (c ∷ calls) keys (ne, others) h =
    run-IsInactive hash id calls (step hash c keys) others (step-IsInactive hash id c keys ne h)

find-IsInactive :
    (id h j : ℕ) (k : ApiKey) (keys : Keys)
    → IsInactive id keys
    → find (is_match h) keys ≡ some (j, k)
    → j ≢ id
find-IsInactive id h j k [] inactive e = absurd (cc e)
find-IsInactive id h j k ((i, x) ∷ keys) (inactive, rest) e =
    elim (Bool-cases (is_match h (i, x))) [
      | inl hit ↦ λ same. absurd (ground (arith, inactive, hit, e, same))
      | inr miss ↦ find-IsInactive id h j k keys rest (ground (arith, miss, e))
    ]

use_key-answer :
    (now : ℕ) (o : Option (ℕ × ApiKey)) (keys : Keys) (d : ℕ × ApiKey)
    → (use_key now o keys).0 ≡ some d
    → o ≡ some d
use_key-answer now none keys d e = absurd (cc e)
use_key-answer now (some (j, k)) keys d e = elim (Bool-cases (has_expired now k.expires_at)) [
  | inl late ↦ absurd (ground (arith, late, e))
  | inr fresh ↦ sym (rw fresh refl) ∙ e
]

Lacks-IsInactive : (id : ℕ) (keys : Keys) → Lacks id keys → IsInactive id keys
Lacks-IsInactive id [] h = tt
Lacks-IsInactive id (d ∷ keys) (ne, h) = ((λ e. absurd (ne e)), Lacks-IsInactive id keys h)

deactivate-IsInactive :
    (id : ℕ) (keys : Keys) → IsKeyed keys → IsInactive id (update_by_id id deactivate keys)
deactivate-IsInactive id [] keyed = tt
deactivate-IsInactive id ((j, k) ∷ keys) (alone, keyed) = elim (Bool-cases (j == id)) [
  | inl same ↦
      let e : j ≡ id = ground (arith, same) in
      rw same (
        (λ e. refl),
        Lacks-IsInactive id keys (subst (λ i. Lacks i keys) e (find-Lacks j keys alone)),
      )
  | inr other ↦
      rw other ((λ e. absurd (ground (arith, e, other))), deactivate-IsInactive id keys keyed)
]

if_own-changed :
    (r : Result ApiKey) (changed keys : Keys)
    → (if_own r changed keys).0 ≡ ok true
    → (if_own r changed keys).1 ≡ changed
if_own-changed (ok k) changed keys e = refl
if_own-changed (err x) changed keys e = absurd (cc e)

revoke-IsInactive :
    (user id : ℕ) (keys : Keys)
    → IsKeyed keys
    → (revoke user id keys).0 ≡ ok true
    → IsInactive id (revoke user id keys).1
unfolding revoke
revoke-IsInactive user id keys keyed done =
    subst (IsInactive id)
      (sym (
        if_own-changed (own_key user (find_by_id id keys)) (update_by_id id deactivate keys) keys
          done))
      (deactivate-IsInactive id keys keyed)

-- Where ids are unique and later keys get other ids, a key that its owner revoked is never accepted
-- again, whatever calls follow, by anyone, in any order: no check, at any time, of any raw key,
-- answers with it.
pub revoked_stays_out :
    (hash : ℕ → ℕ) (user id raw now : ℕ) (calls : List Call) (keys : Keys) (k : ApiKey)
    → IsKeyed keys
    → All (IsOther id) calls
    → (revoke user id keys).0 ≡ ok true
    → (validate_key hash raw now (run hash calls (revoke user id keys).1)).0 ≢ some (id, k)
unfolding revoke validate_key
revoked_stays_out hash user id raw now calls keys k keyed others done answer =
    let after = (revoke user id keys).1 in
    let off = revoke-IsInactive user id keys keyed done in
    find-IsInactive id (hash raw) id k (run hash calls after)
      (run-IsInactive hash id calls after others off)
      (use_key-answer now (find (is_match (hash raw)) (run hash calls after)) (run hash calls after)
        (id, k) answer)
      refl
