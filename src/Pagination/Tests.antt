-- ===== src/Pagination/Tests.antt =====
-- Three rows, the newest first, two of the same date.
use text.Mathlib.Text.{◌==◌ as str_eq}
use webhook_backend.Prelude.{
  ◌≡◌, refl, true, some, none, [], ◌∷◌, suc, length, All, ◌==◌, if◌then◌else◌, List,
}
use webhook_backend.Pagination.{Row, Outside}
use webhook_backend.Pagination.Cursors.{IsSorted, IsCodec, all_rows, all_rows_complete}

abbrev newest : Row
newest = record { value = 900; id = 3 }

abbrev second : Row
second = record { value = 700; id = 2 }

abbrev oldest : Row
oldest = record { value = 700; id = 1 }

abbrev rows : List Row
rows = newest ∷ second ∷ oldest ∷ []

abbrev out : Outside
out = record {
  stringify = λ r. if r.id == 3 then "c" else if r.id == 2 then "b" else "a";
  base64url = λ t. t;
  from_base64url = λ t. t;
  parse = λ t. some (if str_eq t "c" then newest else if str_eq t "b" then second else oldest);
}

codecs : All (IsCodec out) rows
codecs = (
  record { round_trip = refl; filled = refl },
  (record { round_trip = refl; filled = refl }, (record { round_trip = refl; filled = refl }, tt)),
)

rows-IsSorted : IsSorted true rows
rows-IsSorted = ((refl, (refl, tt)), ((refl, tt), (tt, tt)))

all_rows_complete_example : all_rows out true 2 (suc (length rows)) rows none ≡ rows
all_rows_complete_example = all_rows_complete out true 2 rows codecs rows-IsSorted
