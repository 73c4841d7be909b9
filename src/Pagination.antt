-- ===== src/Pagination.antt =====
-- src/common/pagination/cursor.ts: a page of documents behind a cursor. `rows` is the collection in
-- the order of the query's sort, by the sort field and the id. A value is a number; the extra
-- filter and the projection are left out.
pub mod Cursors
mod Tests
use Prim.Native.String.{String}
use text.Mathlib.Text.{◌==◌ as str_eq}
use webhook_backend.Prelude.{
  ℕ, zero, suc, Bool, true, false, not, ◌&&◌, ◌||◌, Option, some, none, List, [], ◌∷◌, ◌++◌, length,
  take, filter, min, max, ltb, ◌==◌, if◌then◌else◌, Result, ok, err, Exception,
}

-- The sort field and the `_id` of a document.
pub record Row : Type 0 where
  pub value : ℕ
  pub id : ℕ

-- `JSON.stringify` then `base64url`, and back; nothing where the text is no JSON or has no id.
pub record Outside : Type 0 where
  pub stringify : Row → String
  pub base64url : String → String
  pub from_base64url : String → String
  pub parse : String → Option Row

-- `encodeCursor`
abbrev pub encode_cursor : Outside → Row → String
encode_cursor out c = out.base64url (out.stringify c)

-- `decodeCursor`
abbrev pub decode_cursor : Outside → String → Result Row
decode_cursor out raw = elim (out.parse (out.from_base64url raw)) [
  | none ↦ err Exception.bad_request
  | some c ↦ ok c
]

pub record Page : Type 0 where
  pub data_rows : List Row
  pub next_cursor : Option String
  pub has_more : Bool

-- `$lt` where the order descends, else `$gt`
abbrev pub comes_after : (descending : Bool) → ℕ → ℕ → Bool
comes_after true a b = ltb b a
comes_after false a b = ltb a b

-- The `$or` clause of a cursor.
abbrev pub is_behind : (descending : Bool) → Row → Row → Bool
is_behind desc c r =
    comes_after desc c.value r.value || (r.value == c.value && comes_after desc c.id r.id)

-- `Math.max(1, Math.min(200, Math.floor(limit)))`
abbrev pub page_size : (limit : ℕ) → ℕ
page_size limit = max 1 (min 200 limit)

abbrev pub last_of : List Row → Option Row
last_of [] = none
last_of (r ∷ []) = some r
last_of (r ∷ s ∷ rows) = last_of (s ∷ rows)

abbrev pub encode_last : Outside → Option Row → Option String
encode_last out none = none
encode_last out (some r) = some (encode_cursor out r)

-- What is made of the rows found, one more than the page holds if there are more.
abbrev pub page_of : Outside → (size : ℕ) → List Row → Page
page_of out size found =
    let has_more = ltb size (length found) in
    let shown = if has_more then take size found else found in
    record {
      data_rows = shown;
      next_cursor = if has_more then encode_last out (last_of shown) else none;
      has_more = has_more;
    }

abbrev pub page_behind :
    Outside → (descending : Bool) → (size : ℕ) → List Row → Result Row → Result Page
page_behind out desc size rows (err e) = err e
page_behind out desc size rows (ok c) =
    ok (page_of out size (take (suc size) (filter (is_behind desc c) rows)))

-- `cursorPaginate`; an empty cursor is none.
pub cursor_paginate :
    Outside → (descending : Bool) → (limit : ℕ) → (cursor : Option String) → List Row → Result Page
cursor_paginate out desc limit none rows =
    ok (page_of out (page_size limit) (take (suc (page_size limit)) rows))
cursor_paginate out desc limit (some raw) rows =
    if str_eq raw ""
    then ok (page_of out (page_size limit) (take (suc (page_size limit)) rows))
    else page_behind out desc (page_size limit) rows (decode_cursor out raw)
