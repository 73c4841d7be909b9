-- ===== src/Delivery/Breaker/Laws.antt =====
-- When the shared breaker opens and closes.
use webhook_backend.Prelude.{
  ℕ, suc, ◌+◌, ◌≤◌, ◌<◌, ◌≡◌, ◌↔◌, refl, true, false, some, none, List, [], ◌∷◌, All, length, arith,
}
use webhook_backend.Delivery.Breaker.{
  Config, Keys, no_keys, Circuit, circuit_closed, circuit_open, is_open, record_failure,
  record_success, force_open, live_fails,
}

-- Failures reported one after another, at the given times; the answer is that of the last.
abbrev pub failures : Config → List ℕ → Circuit × Keys → Circuit × Keys
failures cfg [] r = r
failures cfg (t ∷ ts) r = failures cfg ts (record_failure cfg true t r.1)

-- The keys hold `n` failures of a window that ends at `end`.
abbrev Counts : ℕ → ℕ → Keys → Type 0
Counts n end k = k.fails ≡ some (record { count = n; expires_at = end })

record_failure-Counts :
    (cfg : Config) (t n end : ℕ) (k : Keys)
    → t < end
    → Counts n end k
    → Counts (n + 1) end (record_failure cfg true t k).1
      × (((record_failure cfg true t k).0 ≡ circuit_open) ↔ (cfg.threshold ≤ n + 1))
unfolding record_failure
record_failure-Counts cfg t n end k soon c = (ground arith, ground arith)

record_failure-first :
    (cfg : Config) (t : ℕ) (k : Keys)
    → live_fails k.fails t ≡ none
    → Counts 1 (t + cfg.window_ms) (record_failure cfg true t k).1
      × (((record_failure cfg true t k).0 ≡ circuit_open) ↔ (cfg.threshold ≤ 1))
unfolding record_failure
record_failure-first cfg t k fresh = (ground arith, ground arith)

failures-Counts :
    (cfg : Config) (ts : List ℕ) (n end : ℕ) (r : Circuit × Keys)
    → All (λ t. t < end) ts
    → Counts n end r.1
    → (r.0 ≡ circuit_open) ↔ (cfg.threshold ≤ n)
    → Counts (n + length ts) end (failures cfg ts r).1
      × (((failures cfg ts r).0 ≡ circuit_open) ↔ (cfg.threshold ≤ n + length ts))
failures-Counts cfg [] n end r h c o = let e : n + 0 ≡ n = omega arith in rw e (c, o)
failures-Counts cfg (t ∷ ts) n end r (soon, h) c o =
    let e : n + suc (length ts) ≡ (n + 1) + length ts = omega arith in
    rw e (
      failures-Counts cfg ts (n + 1) end (record_failure cfg true t r.1) h
        (record_failure-Counts cfg t n end r.1 soon c).0
        (record_failure-Counts cfg t n end r.1 soon c).1)

-- Failures within one window of the first trip the breaker exactly from the threshold on: the last
-- one is answered with 'open' if and only if there were at least that many.
pub failures_trip :
    (cfg : Config) (t : ℕ) (ts : List ℕ) (k : Keys)
    → live_fails k.fails t ≡ none
    → All (λ u. u < t + cfg.window_ms) ts
    → ((failures cfg (t ∷ ts) (circuit_closed, k)).0 ≡ circuit_open)
      ↔ (cfg.threshold ≤ suc (length ts))
failures_trip cfg t ts k fresh h =
    let e : 1 + length ts ≡ suc (length ts) = omega arith in
    rw (← e)
      (failures-Counts cfg ts 1 (t + cfg.window_ms) (record_failure cfg true t k) h
        (record_failure-first cfg t k fresh).0 (record_failure-first cfg t k fresh).1).1

-- A breaker that has tripped is open for exactly the reset time from the failure that tripped it.
pub record_failure-is_open :
    (cfg : Config) (now later : ℕ) (k : Keys)
    → (record_failure cfg true now k).0 ≡ circuit_open
    → (is_open true later (record_failure cfg true now k).1 ≡ true) ↔ (later < now + cfg.reset_ms)
unfolding record_failure is_open
record_failure-is_open cfg now later k e = ground arith

-- A success closes the breaker at once and forgets the failures: the next ones need the whole
-- threshold again.
pub record_success-closes :
    (cfg : Config) (now t : ℕ) (ts : List ℕ) (k : Keys)
    → All (λ u. u < t + cfg.window_ms) ts
    → (is_open true now (record_success true k) ≡ false)
      × (((failures cfg (t ∷ ts) (circuit_closed, record_success true k)).0 ≡ circuit_open)
          ↔ (cfg.threshold ≤ suc (length ts)))
unfolding record_success is_open
record_success-closes cfg now t ts k h = (refl, failures_trip cfg t ts no_keys refl h)

-- While Redis does not answer, the breaker never blocks and no call changes its keys.
pub breaker_fails_open :
    (cfg : Config) (now duration : ℕ) (k : Keys)
    → (is_open false now k ≡ false)
      × (record_failure cfg false now k ≡ (circuit_closed, k))
      × (record_success false k ≡ k)
      × (force_open false now duration k ≡ k)
unfolding record_failure record_success force_open is_open
breaker_fails_open cfg now duration k = (refl, refl, refl, refl)
