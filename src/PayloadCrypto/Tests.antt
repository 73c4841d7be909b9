-- ===== src/PayloadCrypto/Tests.antt =====
-- Two keys, the first of which opens what it sealed.
use webhook_backend.Prelude.{◌≡◌, refl, some, none, false, ok, arith, ◌==◌, if◌then◌else◌, ℕ}
use webhook_backend.PayloadCrypto.{Primitives, Keys, encrypt, decrypt}
use webhook_backend.PayloadCrypto.Split.{join_colon, split_colon}
use webhook_backend.PayloadCrypto.RoundTrip.{IsSealed, decrypt-rotated}

abbrev prim : Primitives ℕ
prim = record {
  is_hex_key = λ t. false;
  from_hex = λ t. 1;
  from_base64 = λ t. none;
  sha256 = λ t. 1;
  text_length = λ t. 40;
  seal = λ key iv t. ("t", t);
  unseal = λ key iv tag text. if key == 1 then some text else none;
}

abbrev old : Keys ℕ
old = record {
  current = some 1;
  previous = none;
  version_variable = none;
  previous_version_variable = none;
}

-- The version was not changed with the key.
abbrev new : Keys ℕ
new = record {
  current = some 2;
  previous = some 1;
  version_variable = none;
  previous_version_variable = none;
}

sealed : IsSealed prim 1 "a0" "b1"
sealed = record {
  unseals = refl;
  tag_plain = ground arith;
  text_plain = ground arith;
  tag_filled = refl;
  text_filled = refl;
}

decrypt-rotated_example : decrypt prim new (encrypt prim old "a0" "b1") ≡ ok "b1"
decrypt-rotated_example =
    decrypt-rotated prim old new refl refl refl sealed refl (ground arith, refl) (ground arith)

encrypt-old : encrypt prim old "a0" "b1" ≡ "enc:v1:a0:t:b1"
unfolding encrypt join_colon
encrypt-old = refl

-- The shape of before there were versions.
decrypt-unversioned : decrypt prim new "enc:a0:t:b1" ≡ ok "b1"
unfolding decrypt split_colon
decrypt-unversioned = refl
