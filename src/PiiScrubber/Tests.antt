-- ===== src/PiiScrubber/Tests.antt =====
-- A payload with a customer in it.
use webhook_backend.Prelude.{◌≡◌, refl, none, false, [], ◌∷◌, pos}
use webhook_backend.Filters.{Json, num, str, obj, end, field}
use webhook_backend.PiiScrubber.{Keys, scrub}
use webhook_backend.PiiScrubber.Masking.{IsMasked, scrub-IsMasked}

abbrev keys : Keys
keys = record { array_index = λ k. none; is_inherited = λ k. false }

abbrev payload : Json
payload =
    obj
      (field "customer" (obj (field "email" (str "a@x.org") (field "age" (num (pos 30)) end))) end)

scrub-IsMasked_example :
    IsMasked keys
      ("customer" ∷ "email" ∷ [])
      (scrub keys payload (("phone" ∷ []) ∷ ("customer" ∷ "email" ∷ []) ∷ []))
scrub-IsMasked_example =
    scrub-IsMasked keys (("phone" ∷ []) ∷ []) "customer" ("email" ∷ []) [] payload

scrub-payload :
    scrub keys payload (("phone" ∷ []) ∷ ("customer" ∷ "email" ∷ []) ∷ [])
    ≡ obj (
        field "customer"
          (obj (field "email" (str "[REDACTED]") (field "age" (num (pos 30)) end)))
          end)
scrub-payload = refl
