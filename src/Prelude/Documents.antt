-- ===== src/Prelude/Documents.antt =====
-- A collection of documents, keyed by `_id`, and what the services ask of it: `findById`,
-- `findByIdAndUpdate`, `updateMany`, `create` and `deleteMany`.
use Prim.Native.Nat.{ℕ, zero, suc}
use mathlib.Core.Path.{◌≡◌, refl}
use mathlib.Core.Logic.{◌≢◌, inl, inr}
use mathlib.Core.Bool.{Bool}
use mathlib.Core.Option.{Option, none, some}
use mathlib.Core.Option
use mathlib.Core.List.{List, [], ◌∷◌}
use native.Mathlib.Omega.{arith}
use webhook_backend.Prelude.Tests.{◌==◌, if◌then◌else◌, Bool-cases}
use webhook_backend.Prelude.Lists.{All, take}

abbrev pub Collection {ℓ} : Type ℓ → Type ℓ
Collection V = List (ℕ × V)

module _ {ℓ} {V : Type ℓ} where
  abbrev pub find_by_id : ℕ → Collection V → Option V
  find_by_id k [] = none
  find_by_id k ((j, v) ∷ c) = if j == k then some v else find_by_id k c

  -- A missing id leaves the collection as it is.
  abbrev pub update_by_id : ℕ → (V → V) → Collection V → Collection V
  update_by_id k f [] = []
  update_by_id k f ((j, v) ∷ c) = if j == k then (j, f v) ∷ c else (j, v) ∷ update_by_id k f c

  abbrev pub update_many : (V → Bool) → (V → V) → Collection V → Collection V
  update_many p f [] = []
  update_many p f ((j, v) ∷ c) = (j, (if p v then f v else v)) ∷ update_many p f c

  abbrev pub delete_many : (V → Bool) → Collection V → Collection V
  delete_many p [] = []
  delete_many p ((j, v) ∷ c) = if p v then delete_many p c else (j, v) ∷ delete_many p c

  -- `find(filter)`
  abbrev pub find_many : (V → Bool) → Collection V → Collection V
  find_many p [] = []
  find_many p ((j, v) ∷ c) = if p v then (j, v) ∷ find_many p c else find_many p c

  -- `map.delete(k)`
  abbrev pub delete_key : ℕ → Collection V → Collection V
  delete_key k [] = []
  delete_key k ((j, v) ∷ c) = if j == k then delete_key k c else (j, v) ∷ delete_key k c

  pub find_by_id-delete_key :
      (k j : ℕ) (c : Collection V)
      → find_by_id j (delete_key k c) ≡ (if k == j then none else find_by_id j c)
  find_by_id-delete_key k j [] = ground arith
  find_by_id-delete_key k j ((i, v) ∷ c) = ground (arith, find_by_id-delete_key k j c)

  -- `countDocuments(filter)`
  abbrev pub count_documents : (V → Bool) → Collection V → ℕ
  count_documents p [] = 0
  count_documents p ((j, v) ∷ c) = if p v then suc (count_documents p c) else count_documents p c

  pub find_by_id-update :
      (k j : ℕ) (f : V → V) (c : Collection V)
      → find_by_id j (update_by_id k f c)
        ≡ (if k == j then Option.map f (find_by_id j c) else find_by_id j c)
  find_by_id-update k j f [] = ground arith
  find_by_id-update k j f ((i, v) ∷ c) = ground (arith, find_by_id-update k j f c)

  pub find_by_id-update_self :
      (k : ℕ) (f : V → V) (c : Collection V) {v : V}
      → find_by_id k c ≡ some v
      → find_by_id k (update_by_id k f c) ≡ some (f v)
  find_by_id-update_self k f c h = ground (arith, find_by_id-update k k f c)

  pub find_by_id-update_ne :
      (k j : ℕ) (f : V → V) (c : Collection V)
      → k ≢ j
      → find_by_id j (update_by_id k f c) ≡ find_by_id j c
  find_by_id-update_ne k j f c h = ground (arith, find_by_id-update k j f c)

  pub find_by_id-update_many :
      (k : ℕ) (p : V → Bool) (f : V → V) (c : Collection V)
      → find_by_id k (update_many p f c) ≡ Option.map (λ v. if p v then f v else v) (find_by_id k c)
  find_by_id-update_many k p f [] = refl
  find_by_id-update_many k p f ((i, v) ∷ c) = ground (arith, find_by_id-update_many k p f c)

  -- `findOneAndUpdate` with `upsert`: a missing document starts from the defaults `d`.
  abbrev pub upsert_by_id : ℕ → (V → V) → V → Collection V → Collection V
  upsert_by_id k f d [] = (k, f d) ∷ []
  upsert_by_id k f d ((j, v) ∷ c) = if j == k then (j, f v) ∷ c else (j, v) ∷ upsert_by_id k f d c

  abbrev pub or_default : Option V → V → V
  or_default none d = d
  or_default (some v) d = v

  pub find_by_id-upsert :
      (k j : ℕ) (f : V → V) (d : V) (c : Collection V)
      → find_by_id j (upsert_by_id k f d c)
        ≡ (if k == j then some (f (or_default (find_by_id k c) d)) else find_by_id j c)
  find_by_id-upsert k j f d [] = ground arith
  find_by_id-upsert k j f d ((i, v) ∷ c) = ground (arith, find_by_id-upsert k j f d c)

  -- No two documents have the same id.
  abbrev pub IsKeyed : Collection V → Type ℓ
  IsKeyed [] = Unit {ℓ}
  IsKeyed ((j, e) ∷ c) = (find_by_id j c ≡ none) × IsKeyed c

  -- Without the id.
  abbrev pub Lacks : ℕ → Collection V → Type 0
  Lacks k c = All (λ (d : ℕ × V). d.0 ≢ k) c

  pub find-Lacks : (k : ℕ) (c : Collection V) → find_by_id k c ≡ none → Lacks k c
  find-Lacks k [] h = tt
  find-Lacks k ((j, e) ∷ c) h = elim (Bool-cases (j == k)) [
    | inl same ↦ absurd (ground arith)
    | inr other ↦ (ground arith, find-Lacks k c (ground arith))
  ]

  pub find_many-Lacks :
      (k : ℕ) (p : V → Bool) (n : ℕ) (c : Collection V)
      → Lacks k c
      → Lacks k (take n (find_many p c))
  find_many-Lacks k p zero c h = tt
  find_many-Lacks k p (suc n) [] h = tt
  find_many-Lacks k p (suc n) ((j, e) ∷ c) (ne, h) = elim (Bool-cases (p e)) [
    | inl hit ↦ rw hit (ne, find_many-Lacks k p n c h)
    | inr miss ↦ rw miss (find_many-Lacks k p (suc n) c h)
  ]
