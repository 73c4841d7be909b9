-- ===== src/Filters/Tests.antt =====
-- Filter rules on a concrete event.
use webhook_backend.Prelude.{◌≡◌, refl, true, false, some, none, [], ◌∷◌, pos}
use webhook_backend.Filters.{Json, num, obj, end, field, Js, FilterRule, gt, eq, evaluate}

-- Numbers read as themselves, and nothing else as a number.
abbrev js : Js
js = record {
  builtin_property = λ v k. none;
  to_number = λ v. elim v [ num n ↦ some n | _ ↦ none ];
  includes = λ s v. false;
}

abbrev payload : Json
payload = obj (field "amount" (num (pos 50)) end)

abbrev amount_over_10 : FilterRule
amount_over_10 = record {
  field = "payload" ∷ "amount" ∷ [];
  operator = gt;
  value = some (num (pos 10));
}

abbrev no_such_field : FilterRule
no_such_field = record {
  field = "payload" ∷ "user" ∷ "id" ∷ [];
  operator = eq;
  value = some (num (pos 1));
}

passes : evaluate js (amount_over_10 ∷ []) "order.paid" payload ≡ true
unfolding evaluate
passes = refl
