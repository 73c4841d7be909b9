-- ===== src/ApiKeys/Tests.antt =====
-- Two keys of one user; raw keys are their own hashes.
use webhook_backend.Prelude.{◌≡◌, ◌≢◌, refl, true, some, none, [], ◌∷◌}
use webhook_backend.ApiKeys.{ApiKey, KeyDto, Keys, create, revoke, validate_key, get_stats}
use webhook_backend.ApiKeys.Revocation.{validating, revoking, run, revoked_stays_out}

abbrev dto : KeyDto
dto = record { name = "deploy"; scopes = none; expires_at = some 500 }

abbrev keys : Keys
keys = create (λ raw. raw) 2 7 22 dto (create (λ raw. raw) 1 7 11 dto [])

abbrev first : ApiKey
first = record {
  user_id = 7;
  name = "deploy";
  key_hash = 11;
  scopes = "read" ∷ "write" ∷ [];
  expires_at = some 500;
  is_active = true;
  usage_count = 0;
  last_used_at = none;
}

-- It answers before it is revoked, and not after, whatever another user and the second key do.
answers-first : (validate_key (λ raw. raw) 11 400 keys).0 ≡ some (1, first)
unfolding validate_key
answers-first = refl

revoked_stays_out_example :
    (validate_key
      (λ raw. raw)
      11
      400
      (run (λ raw. raw) (validating 22 300 ∷ revoking 8 2 ∷ []) (revoke 7 1 keys).1)).0
    ≢ some (1, first)
unfolding revoke
revoked_stays_out_example =
    revoked_stays_out (λ raw. raw) 7 1 11 400 (validating 22 300 ∷ revoking 8 2 ∷ []) keys first
      (refl, (refl, tt)) (tt, (tt, tt)) refl

-- A key is refused after its time, and turned off by that.
late : (validate_key (λ raw. raw) 22 501 keys).0 ≡ none
unfolding validate_key
late = refl

-- An expired key counts as active until someone uses it.
stats : (get_stats 7 501 keys) ≡ record { total = 2; active = 2; expired = 2; total_usage = 0 }
unfolding get_stats
stats = refl
