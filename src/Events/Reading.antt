-- ===== src/Events/Reading.antt =====
-- `send` and then `findOne` of src/modules/events/events.service.ts, with payload encryption.
use Prim.Native.String.{String}
use webhook_backend.Prelude.{
  ℕ, ◌≡◌, inl, inr, ap, ◌∙◌, if-true, find_by_id, is_some, or_throw, pure, Action, ◌>>=◌, ◌==◌,
  true, some, ok, Exception, arith, bind-ok,
}
use webhook_backend.Filters.{Json, str}
use text.Mathlib.Text.{starts_with}
use webhook_backend.Events.Acceptance.{send-cases}
use webhook_backend.Events.{StoredEvent, Store, Outside}
use webhook_backend.Events.Sending.{SendArgs, created, new_event, send, scrubbed}
use webhook_backend.PayloadCrypto.Split.{NoColon}
use webhook_backend.PayloadCrypto.RoundTrip.{
  IsSealed, IsVector, decrypt-encrypt, encrypt-keyed, envelope-starts,
}
use webhook_backend.PayloadCrypto.{encrypt, current_version}
use webhook_backend.Events.Recovery.{find_one, of_project, opened, parse_opened}

module _ {Key : Type 0} (out : Outside Key) where
  -- What the outside documents of `JSON.parse` and of the cipher, for one payload: a text that was
  -- made of it is parsed to it, and sealed.
  abbrev pub IsReadable : (key : Key) → (iv : String) → Json → Type 0
  IsReadable key iv payload =
      (out.parse (out.stringify payload) ≡ some payload)
      × IsSealed out.prim key iv (out.stringify payload)

  opened-sealed :
      (iv : String) (payload : Json) (s : Store) {key : Key}
      → out.keys.current ≡ some key
      → NoColon (current_version out.prim out.keys)
      → IsVector out.prim iv
      → IsReadable key iv payload
      → opened out (str (encrypt out.prim out.keys iv (out.stringify payload))) s ≡ (ok payload, s)
  opened-sealed iv payload s {key} has version vector (parses, sealed) =
      let text = out.stringify payload in
      let (tag, sealed_text) = out.prim.seal key iv text in
      let starts : starts_with (encrypt out.prim out.keys iv text) "enc:" ≡ true =
        ap (λ t. starts_with t "enc:") (encrypt-keyed out.prim out.keys iv text has)
        ∙ envelope-starts (current_version out.prim out.keys) iv tag sealed_text in
      let opens = decrypt-encrypt out.prim out.keys has sealed vector version in
      ap (λ (m : Action Store Json). m s)
        (if-true {b = starts_with (encrypt out.prim out.keys iv text) "enc:"} _ starts)
      ∙ ap (λ r. parse_opened out r s) opens
      ∙ ap (λ p. or_throw p Exception.bad_request s) parses

  find_one-lem :
      (id : ℕ) (s : Store) {e : StoredEvent} {payload : Json}
      → find_by_id id s.events ≡ some e
      → opened out e.payload s ≡ (ok payload, s)
      → (find_one out id e.project_id s).0 ≡ ok (record e { payload = payload })
  find_one-lem id s {e} {payload} found opens =
      let mine : of_project e.project_id (find_by_id id s.events) ≡ some e =
        ap (of_project e.project_id) found
        ∙ if-true {b = e.project_id == e.project_id} _ (ground arith) in
      ap (λ f. (((or_throw f Exception.not_found) >>= read) s).0) mine
      ∙ ap (λ p. p.0) (bind-ok (opened out e.payload) (λ p. pure (record e { payload = p })) opens)
    where
      read : StoredEvent → Action Store StoredEvent
      read event = opened out event.payload >>= (λ p. pure (record event { payload = p }))

  -- With payload encryption, an accepted event reads as it was sent, less the endpoint's masked
  -- fields: `findOne` finds it under its id, with the scrubbed payload, decrypted.
  pub send-find_one :
      (a : SendArgs) (s : Store) {key : Key}
      → out.keys.current ≡ some key
      → NoColon (current_version out.prim out.keys)
      → IsVector out.prim a.iv
      → let payload = scrubbed out (find_by_id a.endpoint_id s.endpoints) a.payload in
        IsReadable key a.iv payload
        → (send out a s).0 ≡ ok (created a.id)
        → (find_one out a.id a.project_id (send out a s).1).0
          ≡ ok (record (new_event out a s) { payload = payload })
  send-find_one a s {key} has version vector (parses, sealed) was = elim (send-cases out a s) [
    | inr (_, _, declined) ↦ absurd (ground arith)
    | inl (_, _, stored, _, _, _) ↦
        let s' = (send out a s).1 in
        let payload = scrubbed out (find_by_id a.endpoint_id s.endpoints) a.payload in
        find_one-lem a.id s' {e = new_event out a s}
          (ap (find_by_id a.id) stored ∙ if-true {b = a.id == a.id} _ (ground arith))
          (ap (λ p. opened out p s') (if-true {b = is_some out.keys.current} _ (ap is_some has))
            ∙ opened-sealed a.iv payload s' has version vector (parses, sealed))
  ]
