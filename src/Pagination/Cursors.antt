-- ===== src/Pagination/Cursors.antt =====
-- Following the cursors of src/common/pagination/cursor.ts from page to page.
use Prim.Native.String.{String}
use text.Mathlib.Text.{◌==◌ as str_eq}
use mathlib.Core.List.{append_assoc}
use webhook_backend.Prelude.{
  ◌-◌, ℕ, zero, suc, ◌≤◌, ◌<◌, ◌≡◌, inl, inr, refl, sym, ap, ◌∙◌, subst, Bool, true, false, Option,
  some, none, List, [], ◌∷◌, ◌++◌, length, take, filter, All, ltb, if◌then◌else◌, if-true, if-false,
  Result, ok, err, Exception, arith, Bool-cases,
}
use webhook_backend.Pagination.{
  Row, Outside, Page, encode_cursor, is_behind, page_size, last_of, encode_last, page_of,
  page_behind, cursor_paginate,
}

-- In the order of the sort: each row is behind all before it.
abbrev pub IsSorted : Bool → List Row → Type 0
IsSorted desc [] = Unit
IsSorted desc (r ∷ rows) = All (λ s. is_behind desc r s ≡ true) rows × IsSorted desc rows

-- What the outside documents, for a row: its cursor is decoded to it, and is not empty.
pub record IsCodec (out : Outside) (r : Row) : Type 0 where
  pub round_trip : out.parse (out.from_base64url (encode_cursor out r)) ≡ some r
  pub filled : str_eq (encode_cursor out r) "" ≡ false

All-at :
    (P : Row → Type 0) (before : List Row) (c : Row) (rows : List Row)
    → All P (before ++ c ∷ rows)
    → P c
All-at P [] c rows (h, _) = h
All-at P (x ∷ before) c rows (_, h) = All-at P before c rows h

-- The rows of page after page, `fuel` pages at most, along the cursors.
abbrev pub all_rows : Outside → Bool → (limit fuel : ℕ) → List Row → Option String → List Row
all_rows out desc limit zero rows cursor = []
all_rows out desc limit (suc fuel) rows cursor = elim (cursor_paginate out desc limit cursor rows) [
  | err e ↦ []
  | ok page ↦ elim page.next_cursor [
    | none ↦ page.data_rows
    | some next ↦ page.data_rows ++ all_rows out desc limit fuel rows (some next)
  ]
]

is_behind_irrefl : (desc : Bool) (r : Row) → is_behind desc r r ≡ false
is_behind_irrefl true r = ground arith
is_behind_irrefl false r = ground arith

is_behind_asym : (desc : Bool) (r s : Row) → is_behind desc r s ≡ true → is_behind desc s r ≡ false
is_behind_asym true r s h = ground arith
is_behind_asym false r s h = ground arith

filter-All :
    (desc : Bool) (c : Row) (rows : List Row)
    → All (λ s. is_behind desc c s ≡ true) rows
    → filter (is_behind desc c) rows ≡ rows
filter-All desc c [] h = refl
filter-All desc c (r ∷ rows) (behind, h) =
    if-true {b = is_behind desc c r} _ behind ∙ ap (λ t. r ∷ t) (filter-All desc c rows h)

-- Behind a row is what comes after it.
filter-behind :
    (desc : Bool) (before : List Row) (c : Row) (rows : List Row)
    → IsSorted desc (before ++ c ∷ rows)
    → filter (is_behind desc c) (before ++ c ∷ rows) ≡ rows
filter-behind desc [] c rows (behind, sorted) =
    if-false {b = is_behind desc c c} _ (is_behind_irrefl desc c) ∙ filter-All desc c rows behind
filter-behind desc (r ∷ before) c rows (behind, sorted) =
    if-false {b = is_behind desc c r} _
      (is_behind_asym desc r c (All-at (λ s. is_behind desc r s ≡ true) before c rows behind))
    ∙ filter-behind desc before c rows sorted

last_of-append : (ys : List Row) (z : Row) → last_of (ys ++ z ∷ []) ≡ some z
last_of-append [] z = refl
last_of-append (y ∷ []) z = refl
last_of-append (y ∷ x ∷ ys) z = last_of-append (x ∷ ys) z

-- More rows than a page holds, cut behind the page's last row.
split-page :
    (n : ℕ) (rest : List Row)
    → suc n < length rest
    → (ys : List Row) × (z : Row) × (later : List Row) × (rest ≡ ys ++ z ∷ later)
      × (take (suc n) (take (suc (suc n)) rest) ≡ ys ++ z ∷ [])
      × (length (take (suc (suc n)) rest) ≡ suc (suc n))
      × (length later < length rest)
split-page n [] h = absurd (omega (arith, h))
split-page n (r ∷ []) h = absurd (omega (arith, h))
split-page zero (r ∷ s ∷ rest) h = ([], r, s ∷ rest, refl, refl, refl, omega arith)
split-page (suc n) (r ∷ s ∷ rest) h =
    let (ys, z, later, same, shown, full, fewer) = split-page n (s ∷ rest) (omega (arith, h)) in
    (
      r ∷ ys,
      z,
      later,
      ap (λ t. r ∷ t) same,
      ap (λ t. r ∷ t) shown,
      ap suc full,
      omega (arith, fewer),
    )

take-all : (n : ℕ) (rows : List Row) → length rows ≤ n → take n rows ≡ rows
take-all zero [] h = refl
take-all zero (r ∷ rows) h = absurd (omega (arith, h))
take-all (suc n) [] h = refl
take-all (suc n) (r ∷ rows) h = ap (λ t. r ∷ t) (take-all n rows (omega (arith, h)))

module _ (out : Outside) (desc : Bool) (limit : ℕ) where
  -- The page at a cursor is that of the rest.
  abbrev At : Option String → List Row → List Row → Type 0
  At cursor xs rest =
      cursor_paginate out desc limit cursor xs
      ≡ ok (page_of out (page_size limit) (take (suc (page_size limit)) rest))

  cursor-At :
      (before : List Row) (c : Row) (rest xs : List Row)
      → IsSorted desc xs
      → All (IsCodec out) xs
      → xs ≡ before ++ c ∷ rest
      → At (some (encode_cursor out c)) xs rest
  unfolding cursor_paginate
  cursor-At before c rest xs sorted codecs same =
      let codec = All-at (IsCodec out) before c rest (subst (All (IsCodec out)) same codecs) in
      let behind =
        ap (filter (is_behind desc c)) same
        ∙ filter-behind desc before c rest (subst (IsSorted desc) same sorted) in
      if-false {b = str_eq (encode_cursor out c) ""} _ (codec.filled)
      ∙ ap
          (λ o.
            page_behind out desc (page_size limit) xs
              (elim o as (λ _. Result Row) [ none ↦ err Exception.bad_request | some r ↦ ok r ]))
          (codec.round_trip)
      ∙ ap (λ t. ok (page_of out (page_size limit) (take (suc (page_size limit)) t))) behind

  page_of-last :
      (size : ℕ) (rest : List Row)
      → length rest ≤ size
      → page_of out size (take (suc size) rest)
        ≡ record { data_rows = rest; next_cursor = none; has_more = false }
  page_of-last size rest h =
      ap (page_of out size) (take-all (suc size) rest (omega (arith, h)))
      ∙ ap
          (λ b. record {
            data_rows = if b then take size rest else rest;
            next_cursor =
                if b then encode_last out (last_of (if b then take size rest else rest)) else none;
            has_more = b;
          })
          (ground (arith, h))

  page_of-more :
      (size : ℕ) (found ys : List Row) (z : Row)
      → size < length found
      → take size found ≡ ys ++ z ∷ []
      → page_of out size found ≡ record {
        data_rows = ys ++ z ∷ [];
        next_cursor = some (encode_cursor out z);
        has_more = true;
      }
  page_of-more size found ys z more shown =
      ap
        (λ b. record {
          data_rows = if b then take size found else found;
          next_cursor =
              if b then encode_last out (last_of (if b then take size found else found)) else none;
          has_more = b;
        })
        (ground (arith, more))
      ∙ ap
          (λ t. record {
            data_rows = t;
            next_cursor = encode_last out (last_of t);
            has_more = true;
          })
          shown
      ∙ ap
          (λ l. record {
            data_rows = ys ++ z ∷ [];
            next_cursor = encode_last out l;
            has_more = true;
          })
          (last_of-append ys z)

  -- The rows of a page, and of what its cursor leads to.
  abbrev follow : (fuel : ℕ) → List Row → Result Page → List Row
  follow fuel xs r = elim r [
    | err e ↦ []
    | ok page ↦ elim page.next_cursor [
      | none ↦ page.data_rows
      | some next ↦ page.data_rows ++ all_rows out desc limit fuel xs (some next)
    ]
  ]

  size-suc : (n : ℕ) × (page_size limit ≡ suc n)
  size-suc = (page_size limit - 1, ground arith)

  rows_from :
      (fuel : ℕ) (before rest xs : List Row) (cursor : Option String)
      → IsSorted desc xs
      → All (IsCodec out) xs
      → xs ≡ before ++ rest
      → At cursor xs rest
      → length rest < fuel
      → all_rows out desc limit fuel xs cursor ≡ rest
  rows_from zero before rest xs cursor sorted codecs same at_rest enough =
      absurd (omega (arith, enough))
  rows_from (suc fuel) before rest xs cursor sorted codecs same at_rest enough =
      let (n, size) = size-suc in
      elim (Bool-cases (ltb (suc n) (length rest))) [
        | inr fits ↦
            ap (follow fuel xs)
              (at_rest ∙ ap ok (page_of-last (page_size limit) rest (ground (arith, fits, size))))
        | inl more ↦
            let (ys, z, later, cut, shown, full, fewer) =
              split-page n rest (ground (arith, more)) in
            let page =
              ap (λ k. page_of out k (take (suc k) rest)) size
              ∙ page_of-more (suc n) (take (suc (suc n)) rest) ys z (omega (arith, full)) shown in
            let cut' : xs ≡ (before ++ ys) ++ z ∷ later =
              same ∙ ap (λ t. before ++ t) cut ∙ sym (append_assoc before ys (z ∷ later)) in
            ap (follow fuel xs) (at_rest ∙ ap ok page)
            ∙ ap (λ t. (ys ++ z ∷ []) ++ t)
                (rows_from fuel ((before ++ ys) ++ z ∷ []) later xs (some (encode_cursor out z))
                  sorted codecs (cut' ∙ sym (append_assoc (before ++ ys) (z ∷ []) later))
                  (cursor-At (before ++ ys) z later xs sorted codecs cut')
                  (omega (arith, fewer, enough)))
            ∙ append_assoc ys (z ∷ []) later
            ∙ sym cut
      ]

-- Following the cursors from the first page on gives every row once, in the order of the sort,
-- whatever the limit, as long as the rows do not change meanwhile: one page more than there are
-- rows is enough. (Each row's cursor reads as that row, and the rows are in a strict order.)
pub all_rows_complete :
    (out : Outside) (desc : Bool) (limit : ℕ) (rows : List Row)
    → All (IsCodec out) rows
    → IsSorted desc rows
    → all_rows out desc limit (suc (length rows)) rows none ≡ rows
unfolding cursor_paginate
all_rows_complete out desc limit rows codecs sorted =
    rows_from out desc limit (suc (length rows)) [] rows rows none sorted codecs refl refl
      (omega arith)
