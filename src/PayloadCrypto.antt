-- ===== src/PayloadCrypto.antt =====
-- src/utils/payload-crypto.ts: payloads and secrets as they are stored, encrypted under the
-- configured key and read again after the key was changed. The cipher, the hash and the encodings
-- are Node's, and stand in `Primitives`. The keys are those that `parseKey` made of the environment
-- when they were first asked for; that they are kept then is not modelled.
pub mod Split
pub mod RoundTrip
mod Tests
use Prim.Native.String.{String}
use text.Mathlib.Text.{◌==◌ as str_eq, starts_with}
use webhook_backend.Prelude.{
  ℕ, Bool, true, false, not, ◌&&◌, ◌||◌, Option, some, none, List, [], ◌∷◌, leb, is_some,
  nullish_or, if◌then◌else◌, Result, ok, err, Exception,
}
use webhook_backend.PayloadCrypto.Split.{join_colon, split_colon}

pub record Primitives (Key : Type 0) : Type 0 where
  -- `/^[0-9a-fA-F]{64}$/.test(raw)`, and `Buffer.from(raw, 'hex')`
  pub is_hex_key : String → Bool
  pub from_hex : String → Key
  -- The 32 bytes that the text is the base64 of, if it is that.
  pub from_base64 : String → Option Key
  pub sha256 : String → Key
  -- `raw.length`
  pub text_length : String → ℕ
  -- AES-256-GCM: the tag and the data of a text, for a key and an initialisation vector, all in
  -- hexadecimal; and the text again, unless the tag refuses it.
  pub seal : Key → (iv plaintext : String) → String × String
  pub unseal : Key → (iv tag text : String) → Option String

-- The order in which two keys are tried.
pub data Choice : Type 0 where
  current_first previous_first : Choice

-- `PAYLOAD_ENCRYPTION_KEY` and the other variables of the environment
pub record Keys (Key : Type 0) : Type 0 where
  pub current : Option Key
  pub previous : Option Key
  pub version_variable : Option String
  pub previous_version_variable : Option String

-- `x || d` for a text
abbrev pub text_or : Option String → String → String
text_or none d = d
text_or (some t) d = if str_eq t "" then d else t

module _ {Key : Type 0} (prim : Primitives Key) where
  -- `parseKey`
  pub parse_key : Option String → Result (Option Key)
  parse_key none = ok none
  parse_key (some raw) =
      if str_eq raw ""
      then ok none
      else if prim.is_hex_key raw
      then ok (some (prim.from_hex raw))
      else if is_some (prim.from_base64 raw)
      then ok (prim.from_base64 raw)
      else if leb 32 (prim.text_length raw)
      then ok (some (prim.sha256 raw))
      else err Exception.bad_request

  -- `currentVersion`
  abbrev pub current_version : Keys Key → String
  current_version keys = text_or keys.version_variable "v1"

  -- `previousVersion`
  abbrev pub previous_version : Keys Key → String
  previous_version keys = text_or keys.previous_version_variable "v0"

  -- `enc:${version}:${iv}:${tag}:${text}`
  abbrev pub envelope : (version iv tag text : String) → String
  envelope version iv tag text = join_colon ("enc" ∷ version ∷ iv ∷ tag ∷ text ∷ [])

  -- `encrypt`; `iv` is the random initialisation vector.
  pub encrypt : Keys Key → (iv plaintext : String) → String
  encrypt keys iv plaintext = elim keys.current [
    | none ↦ plaintext
    | some key ↦
        let (tag, text) = prim.seal key iv plaintext in envelope (current_version keys) iv tag text
  ]

  -- The key that is tried first.
  abbrev pub pick_key : Keys Key → (version : Option String) → Choice
  pick_key keys version =
      let v = nullish_or version "" in
      if str_eq v ""
      then (if is_some keys.previous then previous_first else current_first)
      else if str_eq v (current_version keys)
      then current_first
      else if is_some keys.previous && str_eq v (previous_version keys)
      then previous_first
      else if is_some keys.current
      then current_first
      else previous_first

  abbrev pub primary : Choice → Keys Key → Option Key
  primary current_first keys = keys.current
  primary previous_first keys = keys.previous

  abbrev pub secondary : Choice → Keys Key → Option Key
  secondary current_first keys = keys.previous
  secondary previous_first keys = keys.current

  -- `tryDecrypt`, where there is a key
  abbrev pub try_decrypt : Option Key → (iv tag text : String) → Option String
  try_decrypt none iv tag text = none
  try_decrypt (some key) iv tag text = prim.unseal key iv tag text

  abbrev pub first_some : Option String → Option String → Result String
  first_some (some a) b = ok a
  first_some none (some b) = ok b
  first_some none none = err Exception.unavailable

  -- From the check of the parts on.
  abbrev pub decrypt_parts :
      Keys Key → (version : Option String) → (iv tag text ciphertext : String) → Result String
  decrypt_parts keys version iv tag text ciphertext =
      let choice = pick_key keys version in
      if str_eq iv "" || str_eq tag "" || str_eq text ""
      then ok ciphertext
      else if is_some (primary choice keys)
      then first_some (try_decrypt (primary choice keys) iv tag text)
          (try_decrypt (secondary choice keys) iv tag text)
      else ok ciphertext

  abbrev pub decrypt_split : Keys Key → List String → (ciphertext : String) → Result String
  decrypt_split keys (_ ∷ version ∷ iv ∷ tag ∷ text ∷ []) ciphertext =
      decrypt_parts keys (some version) iv tag text ciphertext
  decrypt_split keys (_ ∷ iv ∷ tag ∷ text ∷ []) ciphertext =
      decrypt_parts keys none iv tag text ciphertext
  decrypt_split keys _ ciphertext = ok ciphertext

  -- `decrypt`
  pub decrypt : Keys Key → (ciphertext : String) → Result String
  decrypt keys ciphertext =
      if starts_with ciphertext "enc:"
      then decrypt_split keys (split_colon ciphertext) ciphertext
      else ok ciphertext

  abbrev pub is_current_split : Keys Key → List String → Bool
  is_current_split keys (_ ∷ version ∷ _ ∷ _ ∷ _ ∷ []) = str_eq version (current_version keys)
  is_current_split keys _ = false

  -- `isCurrent`
  pub is_current : Keys Key → (ciphertext : String) → Bool
  is_current keys ciphertext =
      if starts_with ciphertext "enc:" then is_current_split keys (split_colon ciphertext) else true

  -- `encryptMaybe`; null and undefined are nothing.
  abbrev pub encrypt_maybe : Keys Key → (iv : String) → Option String → Option String
  encrypt_maybe keys iv none = none
  encrypt_maybe keys iv (some v) = if str_eq v "" then some v else some (encrypt keys iv v)
