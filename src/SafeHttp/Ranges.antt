-- ===== src/SafeHttp/Ranges.antt =====
-- The IPv4 ranges of src/utils/safe-http.ts as intervals, and where a checked address lies.
use Prim.Native.String.{String}
use text.Mathlib.Text.{◌==◌ as str_eq}
use webhook_backend.Prelude.{
  ℕ, ◌≡◌, refl, sym, ap, subst, ◌∙◌, ◌⊎◌, inl, inr, Bool, true, false, ◌&&◌, ◌||◌, Option, some,
  none, List, [], ◌∷◌, any, leb, ◌==◌, ◌/◌, ◌*◌, if◌then◌else◌, arith, if-false, Bool-cases,
  Option-cases,
}
use webhook_backend.SafeHttp.{
  Family, no_address, four, six, Url, Platform, safe, private_answer, private_host,
  blocked_hostname, ip_to_int, is_private_v4, is_private_ip, is_private_of, is_blocked_name,
  is_allowed_protocol, protocol_of, check_answer, check_name, check_host, check_url,
  assert_safe_url,
}

-- The first and the last address of each range.
abbrev pub internal_ranges : List (ℕ × ℕ)
internal_ranges =
    (167_772_160, 184_549_375)
    ∷ (2_130_706_432, 2_147_483_647)
    ∷ (2_851_995_648, 2_852_061_183)
    ∷ (2_886_729_728, 2_887_778_303)
    ∷ (3_232_235_520, 3_232_301_055)
    ∷ (1_681_915_904, 1_686_110_207)
    ∷ (0, 16_777_215)
    ∷ (3_221_225_472, 3_221_225_727)
    ∷ (3_221_225_984, 3_221_226_239)
    ∷ (3_323_068_416, 3_323_199_487)
    ∷ (3_325_256_704, 3_325_256_959)
    ∷ (3_405_803_776, 3_405_804_031)
    ∷ (3_758_096_384, 4_026_531_839)
    ∷ (4_026_531_840, 4_294_967_295)
    ∷ (4_294_967_295, 4_294_967_295)
    ∷ []

abbrev pub is_internal : ℕ → Bool
is_internal int = any (λ (r : ℕ × ℕ). leb r.0 int && leb int r.1) internal_ranges

either-both : (a b : Bool) {c d : Bool} → a ≡ b → c ≡ d → (a || c) ≡ (b || d)
either-both a b h k = rw (h, k) refl

is_private_v4-internal : (int : ℕ) → is_private_v4 int ≡ is_internal int
is_private_v4-internal int =
    either-both (int / 16_777_216 * 16_777_216 == 167_772_160)
      (leb 167_772_160 int && leb int 184_549_375) (ground arith)
      (either-both (int / 16_777_216 * 16_777_216 == 2_130_706_432)
        (leb 2_130_706_432 int && leb int 2_147_483_647) (ground arith)
        (either-both (int / 65_536 * 65_536 == 2_851_995_648)
          (leb 2_851_995_648 int && leb int 2_852_061_183) (ground arith)
          (either-both (int / 1_048_576 * 1_048_576 == 2_886_729_728)
            (leb 2_886_729_728 int && leb int 2_887_778_303) (ground arith)
            (either-both (int / 65_536 * 65_536 == 3_232_235_520)
              (leb 3_232_235_520 int && leb int 3_232_301_055) (ground arith)
              (either-both (int / 4_194_304 * 4_194_304 == 1_681_915_904)
                (leb 1_681_915_904 int && leb int 1_686_110_207) (ground arith)
                (either-both (int / 16_777_216 * 16_777_216 == 0) (leb 0 int && leb int 16_777_215)
                  (ground arith)
                  (either-both (int / 256 * 256 == 3_221_225_472)
                    (leb 3_221_225_472 int && leb int 3_221_225_727) (ground arith)
                    (either-both (int / 256 * 256 == 3_221_225_984)
                      (leb 3_221_225_984 int && leb int 3_221_226_239) (ground arith)
                      (either-both (int / 131_072 * 131_072 == 3_323_068_416)
                        (leb 3_323_068_416 int && leb int 3_323_199_487) (ground arith)
                        (either-both (int / 256 * 256 == 3_325_256_704)
                          (leb 3_325_256_704 int && leb int 3_325_256_959) (ground arith)
                          (either-both (int / 256 * 256 == 3_405_803_776)
                            (leb 3_405_803_776 int && leb int 3_405_804_031) (ground arith)
                            (either-both (int / 268_435_456 * 268_435_456 == 3_758_096_384)
                              (leb 3_758_096_384 int && leb int 4_026_531_839) (ground arith)
                              (either-both (int / 268_435_456 * 268_435_456 == 4_026_531_840)
                                (leb 4_026_531_840 int && leb int 4_294_967_295) (ground arith)
                                (either-both (int / 1 * 1 == 4_294_967_295)
                                  (leb 4_294_967_295 int && leb int 4_294_967_295) (ground arith)
                                  (refl)))))))))))))))

or-right : (a b : Bool) → (a || b) ≡ false → b ≡ false
or-right true b h = absurd (ground arith)
or-right false b h = h

module _ (p : Platform) where
  -- Where the address came from.
  abbrev pub IsFrom : Url → (ip : String) → Family → Type 0
  IsFrom url ip f =
      ((ip ≡ url.hostname) × (f ≡ p.is_ip url.hostname))
      ⊎ ((p.lookup url.hostname ≡ some (ip, f))
          × (is_blocked_name (p.to_lower_case url.hostname) ≡ false))

  check_answer-safe :
      (url : Url) (o : Option (String × Family)) {url' : Url} {ip : String} {f : Family}
      → check_answer p url o ≡ safe url' ip f
      → (url ≡ url') × (is_private_ip p ip ≡ false) × (o ≡ some (ip, f))
  check_answer-safe url none {url' = u} {ip = i} {f = f} h = absurd (cc h)
  check_answer-safe url (some (a, g)) {url' = u} {ip = i} {f = f} h =
      elim (Bool-cases (is_private_ip p a)) [
        | inl internal ↦ absurd (ground (arith, h, internal))
        | inr external ↦
            let e : safe url a g ≡ safe u i f =
              sym (if-false {b = is_private_ip p a} private_answer external) ∙ h in
            let same : a ≡ i = cc e in (cc e, ap (is_private_ip p) (sym same) ∙ external, cc e)
      ]

  check_name-safe :
      (url : Url) {url' : Url} {ip : String} {f : Family}
      → check_name p url ≡ safe url' ip f
      → (url ≡ url') × (is_private_ip p ip ≡ false) × IsFrom url ip f
  check_name-safe url h = elim (Bool-cases (is_blocked_name (p.to_lower_case url.hostname))) [
    | inl local ↦ absurd (ground (arith, h, local))
    | inr public ↦
        let (same, external, found) = check_answer-safe url (p.lookup url.hostname) (
          sym
            (if-false {b = is_blocked_name (p.to_lower_case url.hostname)} blocked_hostname public)
          ∙ h) in
        (same, external, inr (found, public))
  ]

  check_literal-safe :
      (url : Url) (g : Family) {url' : Url} {ip : String} {f : Family}
      → (if is_private_ip p url.hostname then private_host else safe url url.hostname g)
        ≡ safe url' ip f
      → (url ≡ url') × (is_private_ip p ip ≡ false) × (ip ≡ url.hostname) × (f ≡ g)
  check_literal-safe url g {url' = u} {ip = i} {f = f} h =
      elim (Bool-cases (is_private_ip p url.hostname)) [
        | inl internal ↦ absurd (ground (arith, h, internal))
        | inr external ↦
            let e : safe url url.hostname g ≡ safe u i f =
              sym (if-false {b = is_private_ip p url.hostname} private_host external) ∙ h in
            let same : url.hostname ≡ i = cc e in
            (cc e, ap (is_private_ip p) (sym same) ∙ external, cc e, cc)
      ]

  check_host-safe :
      (url : Url) (g : Family) {url' : Url} {ip : String} {f : Family}
      → p.is_ip url.hostname ≡ g
      → check_host p url g ≡ safe url' ip f
      → (url ≡ url') × (is_private_ip p ip ≡ false) × IsFrom url ip f
  check_host-safe url no_address kind h = check_name-safe url h
  check_host-safe url four kind h =
      let (same, external, host, family) = check_literal-safe url four h in
      (same, external, inl (host, family ∙ sym kind))
  check_host-safe url six kind h =
      let (same, external, host, family) = check_literal-safe url six h in
      (same, external, inl (host, family ∙ sym kind))

  check_url-safe :
      (allow : Option Bool) (u : Url) {url : Url} {ip : String} {f : Family}
      → check_url p allow (some u) ≡ safe url ip f
      → (u ≡ url)
        × (is_allowed_protocol p allow (protocol_of p u) ≡ true)
        × IsFrom u ip f
        × (is_private_ip p ip ≡ false)
  check_url-safe allow u {url = url} {ip = ip} {f = f} h =
      elim (Bool-cases (is_allowed_protocol p allow (protocol_of p u))) [
        | inr barred ↦ absurd (ground (arith, h, barred))
        | inl allowed ↦ elim (Bool-cases (str_eq u.hostname "")) [
          | inl missing ↦ absurd (ground (arith, h, allowed, missing))
          | inr named ↦
              let e : check_host p u (p.is_ip u.hostname) ≡ safe url ip f =
                ground (arith, h, allowed, named) in
              let (same, external, from) = check_host-safe u (p.is_ip u.hostname) refl e in
              (same, allowed, from, external)
        ]
      ]

  is_private_ip-four :
      (ip : String)
      → p.is_ip ip ≡ four
      → is_private_ip p ip ≡ false
      → is_internal (ip_to_int ip) ≡ false
  is_private_ip-four ip kind h =
      sym (is_private_v4-internal (ip_to_int ip))
      ∙ sym (ap (λ k. is_private_of p k ip) kind)
      ∙ or-right (str_eq ip "") (is_private_of p (p.is_ip ip) ip) h

  -- An address that `assertSafeUrl` gives out is for the URL that was asked for, whose protocol is
  -- allowed; it is the URL's host itself, or what the name service answers for a host that has no
  -- local name; `isPrivateIp` is false of it, and an IPv4 address is in none of the internal ranges.
  pub assert_safe_url-external :
      (raw : String) (allow : Option Bool) (url : Url) (ip : String) (f : Family)
      → assert_safe_url p raw allow ≡ safe url ip f
      → (p.parse_url raw ≡ some url)
        × (is_allowed_protocol p allow (protocol_of p url) ≡ true)
        × IsFrom url ip f
        × (is_private_ip p ip ≡ false)
        × (p.is_ip ip ≡ four → is_internal (ip_to_int ip) ≡ false)
  unfolding assert_safe_url
  assert_safe_url-external raw allow url ip f h = elim (Option-cases (p.parse_url raw)) [
    | inl bad ↦ absurd (cc (h, ap (check_url p allow) bad))
    | inr (u, parsed) ↦
        let checked = sym (ap (check_url p allow) parsed) ∙ h in
        let (same, allowed, from, external) = check_url-safe allow u checked in
        (
          parsed ∙ ap some same,
          ap (λ v. is_allowed_protocol p allow (protocol_of p v)) (sym same) ∙ allowed,
          subst (λ v. IsFrom v ip f) same from,
          external,
          λ kind. is_private_ip-four ip kind external,
        )
  ]
