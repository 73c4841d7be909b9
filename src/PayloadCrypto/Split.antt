-- ===== src/PayloadCrypto/Split.antt =====
-- Texts joined by colons and split again (`split(':')` in src/utils/payload-crypto.ts).
use Prim.Native.Char.{Char, code}
use Prim.Native.String
use Prim.Native.String.{String, [], ◌∷◌}
use text.Mathlib.TextLemmas.{nil-append, cons-append}
use webhook_backend.Prelude.{◌≡◌, ◌≢◌, refl, ap, ◌∙◌, List, [], ◌∷◌, ◌==◌, if◌then◌else◌, arith}

abbrev push : Char → List String → List String
push c [] = (c ∷ []) ∷ []
push c (p ∷ ps) = (c ∷ p) ∷ ps

-- `split(':')`
unfoldable pub split_colon : String → List String
split_colon [] = "" ∷ []
split_colon (c ∷ s) = let rest = split_colon s in if code c == b':' then "" ∷ rest else push c rest

-- `join(':')`
unfoldable pub join_colon : List String → String
join_colon [] = ""
join_colon (p ∷ []) = p
join_colon (p ∷ q ∷ ps) = String.◌++◌ p (String.◌++◌ ":" (join_colon (q ∷ ps)))

-- No colon in the text.
abbrev pub NoColon : String → Type 0
NoColon [] = Unit
NoColon (c ∷ s) = (code c ≢ b':') × NoColon s

pub split_colon-append :
    (p s : String) → NoColon p → split_colon (String.◌++◌ p (String.◌++◌ ":" s)) ≡ p ∷ split_colon s
unfolding split_colon
split_colon-append [] s h = rw (nil-append, cons-append, nil-append) refl
split_colon-append (c ∷ p) s (ne, h) =
    ap split_colon (cons-append c p (String.◌++◌ ":" s)) ∙ ground (arith, split_colon-append p s h)

pub split_colon-NoColon : (p : String) → NoColon p → split_colon p ≡ p ∷ []
unfolding split_colon
split_colon-NoColon [] h = refl
split_colon-NoColon (c ∷ p) (ne, h) = ground (arith, split_colon-NoColon p h)
