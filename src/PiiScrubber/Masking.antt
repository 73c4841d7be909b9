-- ===== src/PiiScrubber/Masking.antt =====
-- A masked field stays masked, whatever else src/utils/pii-scrubber.ts masks.
use Prim.Native.String.{String}
use text.Mathlib.Text.{◌==◌ as str_eq}
use webhook_backend.Prelude.{
  ℕ, zero, suc, ◌≡◌, ◌⊎◌, inl, inr, refl, sym, ◌∙◌, subst, Option, some, none, List, [], ◌∷◌, ◌++◌,
  is_some, arith, Bool-cases, Option-cases,
}
use mathlib.Core.Option
use webhook_backend.Filters.{
  Json, null, bool, num, str, arr, obj, Items, nil, cons, Fields, end, field, get_field,
}
use webhook_backend.PiiScrubber.{
  Keys, update_field, update_item, add_field, mask_field, mask_path, scrub,
}

abbrev pub get_item : Option ℕ → Items → Option Json
get_item none items = none
get_item (some i) nil = none
get_item (some zero) (cons v items) = some v
get_item (some (suc i)) (cons v items) = get_item (some i) items

-- An own property of an object, or an item of an array.
abbrev pub own : Keys → String → Json → Option Json
own keys k (obj fs) = get_field fs k
own keys k (arr items) = get_item (keys.array_index k) items
own keys k v = none

-- The value at a path is absent or the mask.
abbrev pub IsMasked : Keys → List String → Json → Type 0
IsMasked keys [] v = v ≡ str "[REDACTED]"
IsMasked keys (k ∷ ks) v =
    (own keys k v ≡ none) ⊎ ((w : Json) × (own keys k v ≡ some w) × IsMasked keys ks w)

-- What is left of the value at a key when a path through it is masked.
abbrev mask_rest : Keys → List String → Json → Json
mask_rest keys [] w = str "[REDACTED]"
mask_rest keys (k ∷ ks) w = mask_path keys "[REDACTED]" (k ∷ ks) w

get_field-update_field :
    (j k : String) (f : Json → Json) (fs : Fields)
    → (get_field (update_field k f fs) j ≡ get_field fs j)
      ⊎ ((w : Json) × (get_field fs j ≡ some w) × (get_field (update_field k f fs) j ≡ some (f w)))
get_field-update_field j k f end = inl refl
get_field-update_field j k f (field i v fs) = elim (Bool-cases (str_eq i k)) [
  | inl hit ↦ elim (Bool-cases (str_eq i j)) [
    | inl same ↦ inr (v, ground arith, ground arith)
    | inr other ↦ inl (ground arith)
  ]
  | inr miss ↦ elim (Bool-cases (str_eq i j)) [
    | inl same ↦ inl (ground arith)
    | inr other ↦ rw (miss, other) (get_field-update_field j k f fs)
  ]
]

get_item-update_item :
    (j k : Option ℕ) (f : Json → Json) (items : Items)
    → (get_item j (update_item k f items) ≡ get_item j items)
      ⊎ ((w : Json) × (get_item j items ≡ some w)
          × (get_item j (update_item k f items) ≡ some (f w)))
get_item-update_item none k f items = inl refl
get_item-update_item (some j) none f items = inl refl
get_item-update_item (some j) (some k) f nil = inl refl
get_item-update_item (some zero) (some zero) f (cons v items) = inr (v, refl, refl)
get_item-update_item (some zero) (some (suc k)) f (cons v items) = inl refl
get_item-update_item (some (suc j)) (some zero) f (cons v items) = inl refl
get_item-update_item (some (suc j)) (some (suc k)) f (cons v items) =
    get_item-update_item (some j) (some k) f items

get_field-update_self :
    (k : String) (f : Json → Json) (fs : Fields) {w : Json}
    → get_field fs k ≡ some w
    → get_field (update_field k f fs) k ≡ some (f w)
get_field-update_self k f end h = ground arith
get_field-update_self k f (field i v fs) {w} h = elim (Bool-cases (str_eq i k)) [
  | inl hit ↦ ground arith
  | inr miss ↦ ground (arith, get_field-update_self k f fs {w = w})
]

get_field-update_absent :
    (k : String) (f : Json → Json) (fs : Fields)
    → get_field fs k ≡ none
    → get_field (update_field k f fs) k ≡ none
get_field-update_absent k f end h = refl
get_field-update_absent k f (field i v fs) h = elim (Bool-cases (str_eq i k)) [
  | inl hit ↦ ground arith
  | inr miss ↦ ground (arith, get_field-update_absent k f fs)
]

get_item-update_self :
    (k : Option ℕ) (f : Json → Json) (items : Items) {w : Json}
    → get_item k items ≡ some w
    → get_item k (update_item k f items) ≡ some (f w)
get_item-update_self none f items h = ground arith
get_item-update_self (some k) f nil h = ground arith
get_item-update_self (some zero) f (cons v items) h = ground arith
get_item-update_self (some (suc k)) f (cons v items) h = get_item-update_self (some k) f items h

get_item-update_absent :
    (k : Option ℕ) (f : Json → Json) (items : Items)
    → get_item k items ≡ none
    → get_item k (update_item k f items) ≡ none
get_item-update_absent none f items h = refl
get_item-update_absent (some k) f nil h = refl
get_item-update_absent (some zero) f (cons v items) h = ground arith
get_item-update_absent (some (suc k)) f (cons v items) h = get_item-update_absent (some k) f items h

get_field-add :
    (j k : String) (v : Json) (fs : Fields)
    → (get_field (add_field k v fs) j ≡ get_field fs j) ⊎ (get_field (add_field k v fs) j ≡ some v)
get_field-add j k v end = elim (Bool-cases (str_eq k j)) [
  | inl same ↦ inr (ground arith)
  | inr other ↦ inl (ground arith)
]
get_field-add j k v (field i w fs) = elim (Bool-cases (str_eq i j)) [
  | inl same ↦ inl (ground arith)
  | inr other ↦ rw other (get_field-add j k v fs)
]

get_field-mask_field :
    (keys : Keys) (j k : String) (fs : Fields)
    → (get_field (mask_field keys "[REDACTED]" k fs) j ≡ get_field fs j)
      ⊎ (get_field (mask_field keys "[REDACTED]" k fs) j ≡ some (str "[REDACTED]"))
get_field-mask_field keys j k fs = elim (Bool-cases (is_some (get_field fs k))) [
  | inl has ↦ rw has (elim (get_field-update_field j k (λ _. str "[REDACTED]") fs) [
    | inl same ↦ inl same
    | inr (w, _, masked) ↦ inr masked
  ])
  | inr absent ↦ elim (Bool-cases (keys.is_inherited k)) [
    | inl inherited ↦ rw (absent, inherited) (get_field-add j k (str "[REDACTED]") fs)
    | inr plain ↦ rw (absent, plain) (inl refl)
  ]
]

-- What a masked path does to an own property: nothing, a step down the path, or the mask.
own-mask_path :
    (keys : Keys) (j k : String) (ks : List String) (v : Json)
    → (own keys j (mask_path keys "[REDACTED]" (k ∷ ks) v) ≡ own keys j v)
      ⊎ ((w : Json) × (own keys j v ≡ some w)
          × (own keys j (mask_path keys "[REDACTED]" (k ∷ ks) v) ≡ some (mask_rest keys ks w)))
      ⊎ (own keys j (mask_path keys "[REDACTED]" (k ∷ ks) v) ≡ some (str "[REDACTED]"))
own-mask_path keys j k [] (obj fs) = elim (get_field-mask_field keys j k fs) [
  | inl same ↦ inl same
  | inr masked ↦ inr (inr masked)
]
own-mask_path keys j k [] (arr items) =
    elim (get_item-update_item (keys.array_index j) (keys.array_index k) (λ _. str "[REDACTED]")
      items) [ inl same ↦ inl same | inr (w, _, masked) ↦ inr (inr masked) ]
own-mask_path keys j k (i ∷ ks) (obj fs) =
    elim (get_field-update_field j k (mask_path keys "[REDACTED]" (i ∷ ks)) fs) [
      | inl same ↦ inl same
      | inr step ↦ inr (inl step)
    ]
own-mask_path keys j k (i ∷ ks) (arr items) =
    elim (get_item-update_item (keys.array_index j) (keys.array_index k)
      (mask_path keys "[REDACTED]" (i ∷ ks)) items) [
        | inl same ↦ inl same
        | inr step ↦ inr (inl step)
      ]
own-mask_path keys j k [] null = inl refl
own-mask_path keys j k [] (bool b) = inl refl
own-mask_path keys j k [] (num n) = inl refl
own-mask_path keys j k [] (str t) = inl refl
own-mask_path keys j k (i ∷ ks) null = inl refl
own-mask_path keys j k (i ∷ ks) (bool b) = inl refl
own-mask_path keys j k (i ∷ ks) (num n) = inl refl
own-mask_path keys j k (i ∷ ks) (str t) = inl refl

mask-IsMasked : (keys : Keys) (p : List String) → IsMasked keys p (str "[REDACTED]")
mask-IsMasked keys [] = refl
mask-IsMasked keys (k ∷ ks) = inl refl

mask_path-mask :
    (keys : Keys) (q : List String)
    → mask_path keys "[REDACTED]" q (str "[REDACTED]") ≡ str "[REDACTED]"
mask_path-mask keys [] = refl
mask_path-mask keys (k ∷ []) = refl
mask_path-mask keys (k ∷ i ∷ ks) = refl

rest-IsMasked :
    (keys : Keys) (js ks : List String) (w : Json)
    → ((q : List String) → IsMasked keys js (mask_path keys "[REDACTED]" q w))
    → IsMasked keys js (mask_rest keys ks w)
rest-IsMasked keys js [] w keeps = mask-IsMasked keys js
rest-IsMasked keys js (k ∷ ks) w keeps = keeps (k ∷ ks)

-- Masking another path keeps what is masked.
keeps-IsMasked :
    (keys : Keys) (p q : List String) (v : Json)
    → IsMasked keys p v
    → IsMasked keys p (mask_path keys "[REDACTED]" q v)
keeps-IsMasked keys p [] v h = h
keeps-IsMasked keys [] (k ∷ ks) v h =
    subst (λ x. mask_path keys "[REDACTED]" (k ∷ ks) x ≡ str "[REDACTED]") (sym h)
      (mask_path-mask keys (k ∷ ks))
keeps-IsMasked keys (j ∷ js) (k ∷ ks) v h = elim (own-mask_path keys j k ks v) [
  | inl same ↦ rw same h
  | inr (inl (w, was, is)) ↦ inr (
    mask_rest keys ks w,
    is,
    rest-IsMasked keys js ks w (λ q. keeps-IsMasked keys js q w (below w was)),
  )
  | inr (inr masked) ↦ inr (str "[REDACTED]", masked, mask-IsMasked keys js)
]
  where
    below : (w : Json) → own keys j v ≡ some w → IsMasked keys js w
    below w was = elim h [
      | inl absent ↦ absurd (ground (arith, was, absent))
      | inr (x, is, masked) ↦
          subst (IsMasked keys js) (Option.some-injective x w (sym is ∙ was)) masked
    ]

-- A path is masked once it was asked for.
mask_path-IsMasked :
    (keys : Keys) (k : String) (ks : List String) (v : Json)
    → IsMasked keys (k ∷ ks) (mask_path keys "[REDACTED]" (k ∷ ks) v)
mask_path-IsMasked keys k [] (obj fs) = elim (get_field-mask_field keys k k fs) [
  | inr masked ↦ inr (str "[REDACTED]", masked, refl)
  | inl same ↦ elim (Option-cases (get_field fs k)) [
    | inl absent ↦ inl (same ∙ absent)
    | inr (w, has) ↦
        inr
          (str "[REDACTED]", rw has (get_field-update_self k (λ _. str "[REDACTED]") fs has), refl)
  ]
]
mask_path-IsMasked keys k [] (arr items) =
    elim (Option-cases (get_item (keys.array_index k) items)) [
      | inl absent ↦ inl (get_item-update_absent _ _ items absent)
      | inr (w, has) ↦ inr (str "[REDACTED]", get_item-update_self _ _ items has, refl)
    ]
mask_path-IsMasked keys k (i ∷ ks) (obj fs) = elim (Option-cases (get_field fs k)) [
  | inl absent ↦ inl (get_field-update_absent _ _ fs absent)
  | inr (w, has) ↦ inr (
    mask_path keys "[REDACTED]" (i ∷ ks) w,
    get_field-update_self _ _ fs has,
    mask_path-IsMasked keys i ks w,
  )
]
mask_path-IsMasked keys k (i ∷ ks) (arr items) =
    elim (Option-cases (get_item (keys.array_index k) items)) [
      | inl absent ↦ inl (get_item-update_absent _ _ items absent)
      | inr (w, has) ↦ inr (
        mask_path keys "[REDACTED]" (i ∷ ks) w,
        get_item-update_self _ _ items has,
        mask_path-IsMasked keys i ks w,
      )
    ]
mask_path-IsMasked keys k [] null = inl refl
mask_path-IsMasked keys k [] (bool b) = inl refl
mask_path-IsMasked keys k [] (num n) = inl refl
mask_path-IsMasked keys k [] (str t) = inl refl
mask_path-IsMasked keys k (i ∷ ks) null = inl refl
mask_path-IsMasked keys k (i ∷ ks) (bool b) = inl refl
mask_path-IsMasked keys k (i ∷ ks) (num n) = inl refl
mask_path-IsMasked keys k (i ∷ ks) (str t) = inl refl

scrub_from-IsMasked :
    (keys : Keys) (p : List String) (fields : List (List String)) (v : Json)
    → IsMasked keys p v
    → IsMasked keys p (scrub keys v fields)
scrub_from-IsMasked keys p [] v h = h
scrub_from-IsMasked keys p (q ∷ qs) v h =
    scrub_from-IsMasked keys p qs (mask_path keys "[REDACTED]" q v) (keeps-IsMasked keys p q v h)

-- Whatever the payload, and wherever it stands among the fields, a field (a path of at least one
-- key) is masked by `scrub`: following its path through the result ends at an absent property or at
-- the mask.
pub scrub-IsMasked :
    (keys : Keys) (before : List (List String)) (k : String) (ks : List String)
    (after : List (List String)) (payload : Json)
    → IsMasked keys (k ∷ ks) (scrub keys payload (before ++ (k ∷ ks) ∷ after))
scrub-IsMasked keys [] k ks after payload =
    scrub_from-IsMasked keys (k ∷ ks) after (mask_path keys "[REDACTED]" (k ∷ ks) payload)
      (mask_path-IsMasked keys k ks payload)
scrub-IsMasked keys (q ∷ before) k ks after payload =
    scrub-IsMasked keys before k ks after (mask_path keys "[REDACTED]" q payload)
