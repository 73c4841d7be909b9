-- ===== src/PiiScrubber.antt =====
-- src/utils/pii-scrubber.ts: fields of a payload that are masked before it is stored. A dotted path
-- is its list of keys. `Keys` says what JavaScript's `in` and the index of an array are; a path
-- through `__proto__` is left out, and so is one that ends at the `length` of an array.
pub mod Masking
mod Tests
use Prim.Native.String.{String}
use text.Mathlib.Text.{◌==◌ as str_eq}
use webhook_backend.Prelude.{
  ℕ, zero, suc, Bool, true, false, Option, some, none, List, [], ◌∷◌, foldl, if◌then◌else◌, is_some,
}
use webhook_backend.Filters.{
  Json, null, bool, num, str, arr, obj, Items, nil, cons, Fields, end, field, get_field,
}

pub record Keys : Type 0 where
  -- The index that a key is, where it is one.
  pub array_index : String → Option ℕ
  -- A key that every object inherits, such as `toString`.
  pub is_inherited : String → Bool

abbrev pub update_field : String → (Json → Json) → Fields → Fields
update_field k f end = end
update_field k f (field j v fs) =
    if str_eq j k then field j (f v) fs else field j v (update_field k f fs)

abbrev pub update_item : Option ℕ → (Json → Json) → Items → Items
update_item none f items = items
update_item (some i) f nil = nil
update_item (some zero) f (cons v items) = cons (f v) items
update_item (some (suc i)) f (cons v items) = cons v (update_item (some i) f items)

abbrev pub add_field : String → Json → Fields → Fields
add_field k v end = field k v end
add_field k v (field j w fs) = field j w (add_field k v fs)

-- `if (key in obj) obj[key] = mask`, on an object
abbrev pub mask_field : Keys → (mask key : String) → Fields → Fields
mask_field keys mask k fs =
    if is_some (get_field fs k)
    then update_field k (λ _. str mask) fs
    else if keys.is_inherited k
    then add_field k (str mask) fs
    else fs

-- The rounds of the loop over the parts of a path, and the assignment behind it. What is not an
-- object or an array ends it.
abbrev pub mask_path : Keys → (mask : String) → List String → Json → Json
mask_path keys mask [] v = v
mask_path keys mask (k ∷ []) (obj fs) = obj (mask_field keys mask k fs)
mask_path keys mask (k ∷ []) (arr items) =
    arr (update_item (keys.array_index k) (λ _. str mask) items)
mask_path keys mask (k ∷ j ∷ ks) (obj fs) = obj (update_field k (mask_path keys mask (j ∷ ks)) fs)
mask_path keys mask (k ∷ j ∷ ks) (arr items) =
    arr (update_item (keys.array_index k) (mask_path keys mask (j ∷ ks)) items)
mask_path keys mask (k ∷ ks) v = v

-- `scrub`, with the mask it has by default
abbrev pub scrub : Keys → Json → List (List String) → Json
scrub keys payload fields = foldl (λ v path. mask_path keys "[REDACTED]" path v) payload fields
