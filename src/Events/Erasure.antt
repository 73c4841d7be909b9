-- ===== src/Events/Erasure.antt =====
-- `eraseByCustomerId` of src/modules/events/events.service.ts: what it deletes and what it keeps.
-- A dotted key of the query looks into an object, and into the objects of an array; it finds a
-- text, or an array that has it.
use Prim.Native.String.{String}
use text.Mathlib.Text.{◌==◌ as str_eq}
use webhook_backend.Prelude.{
  ℕ, ◌≡◌, refl, ap, sym, ◌∙◌, subst, ok, is_some, if-true, if-false, Bool, true, false, not, ◌&&◌,
  ◌||◌, Option, some, none, List, [], ◌∷◌, map, any, filter, Collection, find_by_id, find_many,
  ◌==◌, if◌then◌else◌, arith, Bool-cases, inl, inr,
}
use webhook_backend.Filters.{Json, str, arr, obj, Items, nil, cons, Fields, get_field}
use webhook_backend.Events.{StoredEvent, Store, Outside}
use webhook_backend.Events.Sending.{SendArgs, created, send, new_event}
use webhook_backend.Events.Acceptance.{send-cases}
use webhook_backend.Prelude.{IsKeyed}

abbrev pub is_text : String → Json → Bool
is_text t (str s) = str_eq s t
is_text t _ = false

abbrev pub has_text : String → Items → Bool
has_text t nil = false
has_text t (cons v items) = is_text t v || has_text t items

-- A value that a query for the text finds.
abbrev pub finds_text : String → Json → Bool
finds_text t (arr items) = has_text t items
finds_text t v = is_text t v

abbrev pub finds_option : String → Option Json → Bool
finds_option t none = false
finds_option t (some v) = finds_text t v

-- The four keys under which a customer may stand.
abbrev pub names_in_fields : (customer : String) → Fields → Bool
names_in_fields customer fs =
    finds_option customer (get_field fs "customerId")
    || finds_option customer (get_field fs "userId")
    || finds_option customer (get_field fs "customer_id")
    || finds_option customer (get_field fs "user_id")

abbrev pub names_in_object : (customer : String) → Json → Bool
names_in_object customer (obj fs) = names_in_fields customer fs
names_in_object customer _ = false

abbrev pub names_in_items : (customer : String) → Items → Bool
names_in_items customer nil = false
names_in_items customer (cons v items) = names_in_object customer v || names_in_items customer items

abbrev pub names_customer : (customer : String) → Json → Bool
names_customer customer (arr items) = names_in_items customer items
names_customer customer v = names_in_object customer v

-- The filter of the query.
abbrev pub is_of_customer : (project : ℕ) → (customer : String) → StoredEvent → Bool
is_of_customer project customer e = e.project_id == project && names_customer customer e.payload

abbrev pub ids : Collection StoredEvent → List ℕ
ids events = map (λ (d : ℕ × StoredEvent). d.0) events

-- `{ $in: ids }`
abbrev pub is_in : List ℕ → ℕ → Bool
is_in ks k = any (λ j. j == k) ks

abbrev pub delete_ids : List ℕ → Collection StoredEvent → Collection StoredEvent
delete_ids ks [] = []
delete_ids ks ((j, e) ∷ events) =
    if is_in ks j then delete_ids ks events else (j, e) ∷ delete_ids ks events

-- `eraseByCustomerId`
unfoldable pub erase_by_customer_id : (project : ℕ) → (customer : String) → Store → Store
erase_by_customer_id project customer s =
    let erased = ids (find_many (is_of_customer project customer) s.events) in
    record s {
      events = delete_ids erased s.events;
      logs = filter (λ k. not (is_in erased k)) s.logs;
    }

is_in-same : (ks : List ℕ) (j k : ℕ) → j == k ≡ true → is_in ks j ≡ is_in ks k
is_in-same ks j k same = ap (is_in ks) (ground (arith, same))

find-delete_ids :
    (ks : List ℕ) (k : ℕ) (events : Collection StoredEvent)
    → find_by_id k (delete_ids ks events) ≡ (if is_in ks k then none else find_by_id k events)
find-delete_ids ks k [] = ground arith
find-delete_ids ks k ((j, e) ∷ events) = elim (Bool-cases (j == k)) [
  | inl same ↦ elim (Bool-cases (is_in ks j)) [
    | inl gone ↦ ground (arith, find-delete_ids ks k events, is_in-same ks j k same)
    | inr kept ↦ ground (arith, find-delete_ids ks k events, is_in-same ks j k same)
  ]
  | inr other ↦ ground (arith, find-delete_ids ks k events)
]

-- Whether the document under an id, if there is one, passes a test.
abbrev pub passes : (StoredEvent → Bool) → Option StoredEvent → Bool
passes p none = false
passes p (some e) = p e

is_in-ids :
    (p : StoredEvent → Bool) (k : ℕ) (events : Collection StoredEvent)
    → IsKeyed events
    → is_in (ids (find_many p events)) k ≡ passes p (find_by_id k events)
is_in-ids p k [] h = refl
is_in-ids p k ((j, e) ∷ events) (fresh, h) = elim (Bool-cases (j == k)) [
  | inl same ↦ elim (Bool-cases (p e)) [
    | inl hit ↦ ground (arith, hit, same)
    | inr miss ↦ ground (arith, miss, same, is_in-ids p k events h, absent same)
  ]
  | inr other ↦ elim (Bool-cases (p e)) [
    | inl hit ↦ ground (arith, hit, other, is_in-ids p k events h)
    | inr miss ↦ ground (arith, miss, other, is_in-ids p k events h)
  ]
]
  where
    absent : j == k ≡ true → find_by_id k events ≡ none
    absent same = subst (λ i. find_by_id i events ≡ none) (ground (arith, same)) fresh

is_in-filter : (q : ℕ → Bool) (k : ℕ) (ks : List ℕ) → is_in (filter q ks) k ≡ (is_in ks k && q k)
is_in-filter q k [] = refl
is_in-filter q k (j ∷ ks) = elim (Bool-cases (j == k)) [
  | inl same ↦ elim (Bool-cases (q j)) [
    | inl yes_q ↦ ground (arith, is_in-filter q k ks, yes_q, same, ap q (at same))
    | inr no_q ↦ ground (arith, is_in-filter q k ks, no_q, same, ap q (at same))
  ]
  | inr other ↦ ground (arith, is_in-filter q k ks, other)
]
  where
    at : j == k ≡ true → j ≡ k
    at same = ground (arith, same)

-- Where ids are unique, `eraseByCustomerId` deletes exactly the events of the project that name the
-- customer in their payload, and exactly the delivery logs of those events; every other document
-- stays as it is.
pub erase_by_customer_id-lem :
    (project : ℕ) (customer : String) (s : Store) (k : ℕ)
    → IsKeyed s.events
    → let s' = erase_by_customer_id project customer s in
      let is_erased = passes (is_of_customer project customer) (find_by_id k s.events) in
      (find_by_id k s'.events ≡ (if is_erased then none else find_by_id k s.events))
      × (is_in s'.logs k ≡ (is_in s.logs k && not is_erased))
unfolding erase_by_customer_id
erase_by_customer_id-lem project customer s k h =
    let erased = ids (find_many (is_of_customer project customer) s.events) in
    let known = is_in-ids (is_of_customer project customer) k s.events h in
    (
      find-delete_ids erased k s.events ∙ ap (λ b. if b then none else find_by_id k s.events) known,
      is_in-filter (λ j. not (is_in erased j)) k s.logs ∙ ap (λ b. is_in s.logs k && not b) known,
    )

-- With payload encryption, an accepted event, under a new id, survives the erasure of any customer,
-- whatever its payload says.
pub erase_keeps_encrypted :
    {Key : Type 0} (out : Outside Key) (a : SendArgs) (s : Store) (project : ℕ) (customer : String)
    → is_some out.keys.current ≡ true
    → IsKeyed s.events
    → find_by_id a.id s.events ≡ none
    → (send out a s).0 ≡ ok (created a.id)
    → find_by_id a.id (erase_by_customer_id project customer (send out a s).1).events
      ≡ some (new_event out a s)
erase_keeps_encrypted out a s project customer encrypts keyed fresh was =
    elim (send-cases out a s) [
      | inr (_, _, declined) ↦ absurd (ground arith)
      | inl (_, _, stored, _, _, _) ↦
          let s' = (send out a s).1 in
          let here : find_by_id a.id s'.events ≡ some (new_event out a s) =
            ap (find_by_id a.id) stored ∙ if-true {b = a.id == a.id} _ (ground arith) in
          (erase_by_customer_id-lem project customer s' a.id
            (subst IsKeyed (sym stored) (fresh, keyed))).0
          ∙ ap (λ f. if passes (is_of_customer project customer) f then none else f) here
          ∙ if-false _ (hidden (a.project_id == project))
    ]
  where
    hidden : (b : Bool) → (b && names_customer customer (new_event out a s).payload) ≡ false
    hidden b = rw encrypts (ground arith)
