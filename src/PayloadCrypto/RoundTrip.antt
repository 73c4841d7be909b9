-- ===== src/PayloadCrypto/RoundTrip.antt =====
-- What `encrypt` of src/utils/payload-crypto.ts stores, `decrypt` reads, under the same keys and
-- after they were changed.
use Prim.Native.String.{String}
use text.Mathlib.Text.{◌==◌ as str_eq, starts_with}
use text.Mathlib.TextLemmas.{append_assoc}
use text.Mathlib.TextPositions.{starts_with-append, eq_refl}
use webhook_backend.Prelude.{
  ◌≡◌, inl, inr, refl, ap, subst, ◌∙◌, true, false, Option, some, none, [], ◌∷◌, ok, arith,
  Bool-cases, is_some,
}
use webhook_backend.PayloadCrypto.Split.{
  join_colon, split_colon, NoColon, split_colon-append, split_colon-NoColon,
}
use webhook_backend.PayloadCrypto.{
  Primitives, Keys, text_or, current_version, envelope, encrypt, decrypt, decrypt_parts, pick_key,
  Choice, current_first, previous_first, primary, secondary, try_decrypt, first_some,
}

pub envelope-starts :
    (version iv tag text : String)
    → starts_with (join_colon ("enc" ∷ version ∷ iv ∷ tag ∷ text ∷ [])) "enc:" ≡ true
unfolding join_colon
envelope-starts version iv tag text =
    let rest = join_colon (version ∷ iv ∷ tag ∷ text ∷ []) in
    subst (λ t. starts_with t "enc:" ≡ true) (append_assoc "enc" ":" rest)
      (starts_with-append "enc:" rest)

envelope-split :
    (version iv tag text : String)
    → NoColon version
    → NoColon iv
    → NoColon tag
    → NoColon text
    → split_colon (join_colon ("enc" ∷ version ∷ iv ∷ tag ∷ text ∷ []))
      ≡ "enc" ∷ version ∷ iv ∷ tag ∷ text ∷ []
unfolding join_colon
envelope-split version iv tag text v i g t =
    rw
      (
        split_colon-append "enc" _ (ground arith),
        split_colon-append version _ v,
        split_colon-append iv _ i,
        split_colon-append tag _ g,
        split_colon-NoColon text t,
      )
      refl

module _ {Key : Type 0} (prim : Primitives Key) where
  -- What the cipher documents of a text that it sealed: the key gives it back, and the tag and the
  -- data are hexadecimal and not empty (a text that is not empty has data).
  pub record IsSealed (key : Key) (iv plaintext : String) : Type 0 where
    pub unseals :
        prim.unseal key iv (prim.seal key iv plaintext).0 (prim.seal key iv plaintext).1
        ≡ some plaintext
    pub tag_plain : NoColon (prim.seal key iv plaintext).0
    pub text_plain : NoColon (prim.seal key iv plaintext).1
    pub tag_filled : str_eq (prim.seal key iv plaintext).0 "" ≡ false
    pub text_filled : str_eq (prim.seal key iv plaintext).1 "" ≡ false

  -- An initialisation vector in hexadecimal.
  abbrev pub IsVector : String → Type 0
  IsVector iv = NoColon iv × (str_eq iv "" ≡ false)

  text_or-filled :
      (t : Option String) (d : String) → str_eq d "" ≡ false → str_eq (text_or t d) "" ≡ false
  text_or-filled none d h = h
  text_or-filled (some t) d h = elim (Bool-cases (str_eq t "")) [ inl e ↦ rw e h | inr e ↦ rw e e ]

  -- What `decrypt` makes of a sealed text, whatever its keys are.
  decrypt-envelope :
      (keys : Keys Key) (version : String) {key : Key} {iv plaintext : String}
      → IsSealed key iv plaintext
      → IsVector iv
      → NoColon version
      → let (tag, text) = prim.seal key iv plaintext in
        decrypt prim keys (envelope prim version iv tag text)
        ≡ decrypt_parts prim keys (some version) iv tag text (envelope prim version iv tag text)
  unfolding decrypt
  decrypt-envelope keys version {key} {iv} {plaintext} sealed (plain, filled) v =
      let tag = (prim.seal key iv plaintext).0 in
      let text = (prim.seal key iv plaintext).1 in
      rw
        (
          envelope-starts version iv tag text,
          envelope-split version iv tag text v plain sealed.tag_plain sealed.text_plain,
        )
        refl

  pub encrypt-keyed :
      (keys : Keys Key) {key : Key} (iv plaintext : String)
      → keys.current ≡ some key
      → encrypt prim keys iv plaintext
        ≡ envelope prim
            (current_version prim keys)
            iv
            (prim.seal key iv plaintext).0
            (prim.seal key iv plaintext).1
  unfolding encrypt
  encrypt-keyed keys iv plaintext has = rw has refl

  -- A choice of keys by which a text is read.
  abbrev Reads : Keys Key → (iv tag text plaintext : String) → Choice → Type 0
  Reads keys iv tag text plaintext choice =
      (is_some (primary prim choice keys) ≡ true)
      × (first_some prim (try_decrypt prim (primary prim choice keys) iv tag text)
            (try_decrypt prim (secondary prim choice keys) iv tag text)
          ≡ ok plaintext)

  decrypt_parts-Reads :
      (keys : Keys Key) (version iv tag text ciphertext plaintext : String)
      → str_eq iv "" ≡ false
      → str_eq tag "" ≡ false
      → str_eq text "" ≡ false
      → Reads keys iv tag text plaintext (pick_key prim keys (some version))
      → decrypt_parts prim keys (some version) iv tag text ciphertext ≡ ok plaintext
  decrypt_parts-Reads keys version iv tag text ciphertext plaintext i g t (keyed, reads) =
      rw (i, g, t, keyed) reads

  current-Reads :
      (keys : Keys Key) {key : Key} {iv tag text plaintext : String}
      → keys.current ≡ some key
      → prim.unseal key iv tag text ≡ some plaintext
      → Reads keys iv tag text plaintext current_first
  current-Reads keys has opens = (rw has refl, rw (has, opens) refl)

  any-Reads :
      (keys : Keys Key) {key key' : Key} {iv tag text plaintext : String} (choice : Choice)
      → keys.previous ≡ some key
      → keys.current ≡ some key'
      → prim.unseal key iv tag text ≡ some plaintext
      → prim.unseal key' iv tag text ≡ none
      → Reads keys iv tag text plaintext choice
  any-Reads keys current_first kept has opens refuses =
      (rw has refl, rw (has, kept, refuses, opens) refl)
  any-Reads keys previous_first kept has opens refuses = (rw kept refl, rw (kept, opens) refl)

  pick_key-current :
      (keys : Keys Key) → pick_key prim keys (some (current_version prim keys)) ≡ current_first
  pick_key-current keys =
      rw (text_or-filled keys.version_variable "v1" refl, eq_refl (current_version prim keys)) refl

  -- With a key, what `encrypt` makes of a text `decrypt` turns back into it under the same keys, if
  -- the cipher holds for that text, which is not empty, and the version has no colon.
  pub decrypt-encrypt :
      (keys : Keys Key) {key : Key} {iv plaintext : String}
      → keys.current ≡ some key
      → IsSealed key iv plaintext
      → IsVector iv
      → NoColon (current_version prim keys)
      → decrypt prim keys (encrypt prim keys iv plaintext) ≡ ok plaintext
  decrypt-encrypt keys {key} {iv} {plaintext} has sealed vector v =
      let (tag, text) = prim.seal key iv plaintext in
      let version = current_version prim keys in
      ap (decrypt prim keys) (encrypt-keyed keys iv plaintext has)
      ∙ decrypt-envelope keys version sealed vector v
      ∙ decrypt_parts-Reads keys version iv tag text _ plaintext vector.1 sealed.tag_filled
          sealed.text_filled (rw (pick_key-current keys) (current-Reads keys has sealed.unseals))

  -- After a change of keys that keeps the old one as the previous key, whatever versions are
  -- configured then, `decrypt` still reads what `encrypt` made before, if the cipher holds for that
  -- text, the new key does not open it, and the old version has no colon.
  pub decrypt-rotated :
      (old new : Keys Key) {key key' : Key} {iv plaintext : String}
      → old.current ≡ some key
      → new.previous ≡ some key
      → new.current ≡ some key'
      → IsSealed key iv plaintext
      → prim.unseal key' iv (prim.seal key iv plaintext).0 (prim.seal key iv plaintext).1 ≡ none
      → IsVector iv
      → NoColon (current_version prim old)
      → decrypt prim new (encrypt prim old iv plaintext) ≡ ok plaintext
  decrypt-rotated old new {key} {key'} {iv} {plaintext} has kept has' sealed refuses vector v =
      let (tag, text) = prim.seal key iv plaintext in
      let version = current_version prim old in
      ap (decrypt prim new) (encrypt-keyed old iv plaintext has)
      ∙ decrypt-envelope new version sealed vector v
      ∙ decrypt_parts-Reads new version iv tag text _ plaintext vector.1 sealed.tag_filled
          sealed.text_filled
          (any-Reads new (pick_key prim new (some version)) kept has' sealed.unseals refuses)
