-- ===== src/Parsing/Safety/Breaker.antt =====
-- When `SuggesterCircuitBreaker` opens, and what it keeps from the wrapped suggester then.
use domain_watcher.Parsing.Safety.{CircuitBreaker, drop_old, record_failure, suggest}
use domain_watcher.Parsing.{ParseRule}
use domain_watcher.Prelude.Int.{sub_ℕ, pos, ltb_ℤ}
use domain_watcher.Prelude.{
  ℕ, ◌+◌, ◌≤◌, ◌≡◌, refl, true, false, none, some, if◌then◌else◌, List, [], ◌∷◌, ◌++◌, All,
  All-append, append_assoc, append-nil, length, length-append, leb, arith, ◌∙◌, sym, le→leb,
}
use domain_watcher.Shared.Errors.{Result, raise, suggestion_error}
use domain_watcher.Shared.Text.{lit}
use domain_watcher.Shared.Time.{Instant}

-- The calls of `suggest`, one after another, each with the readings of the clock at its test and
-- at its failure: their results and the state behind them.
unfoldable pub suggest_all :
    {I : Type 0}
    → (I → Result ParseRule × I)
    → List (Instant × Instant)
    → I × CircuitBreaker
    → List (Result ParseRule) × (I × CircuitBreaker)
suggest_all inner [] s = ([], s)
suggest_all inner ((now, later) ∷ calls) s =
    let (r, t) = suggest inner now later s in let (rs, u) = suggest_all inner calls t in (r ∷ rs, u)

-- what a call gets while the breaker is open
abbrev pub circuit_open : Result ParseRule
circuit_open = raise (suggestion_error (lit "circuit_open") true false)

-- The breaker after a probe that was let through: closed and without failures, or with the one of
-- a `SuggestionError`, which opens it again where one failure is enough.
abbrev pub probed : Instant → Result ParseRule → CircuitBreaker → CircuitBreaker
probed later (raise (suggestion_error m t p)) b = record b {
  failures = later ∷ [];
  opened_at = if leb b.threshold 1 then some later else none;
}
probed later r b = record b { failures = []; opened_at = none }

-- the failures at these instants
unfoldable pub record_failures : List Instant → CircuitBreaker → CircuitBreaker
record_failures [] b = b
record_failures (t ∷ ts) b = record_failures ts (record_failure t b)

-- No instant of the list is more than `window` before `now`.
abbrev pub Recent : ℕ → Instant → List Instant → Type 0
Recent window now = All (λ t. now ≤ t + window)

drop_old-Recent :
    (window : ℕ) (now : Instant) (ts : List Instant)
    → Recent window now ts
    → drop_old window now ts ≡ ts
unfolding drop_old
drop_old-Recent window now [] h = refl
drop_old-Recent window now (t ∷ ts) (h, hs) =
    let kept : ltb_ℤ (pos window) (sub_ℕ now t) ≡ false = ground arith in rw kept refl

record_failure-failures :
    (b : CircuitBreaker) (now : Instant)
    → Recent b.failure_window now b.failures
    → (record_failure now b).failures ≡ b.failures ++ (now ∷ [])
unfolding record_failure
record_failure-failures b now h =
    drop_old-Recent b.failure_window now (b.failures ++ (now ∷ []))
      (All-append _ b.failures (now ∷ []) h (omega arith, tt))

record_failure-opened_at :
    (b : CircuitBreaker) (now : Instant)
    → Recent b.failure_window now b.failures
    → b.threshold ≤ length b.failures + 1
    → (record_failure now b).opened_at ≡ some now
unfolding record_failure
record_failure-opened_at b now h full =
    let enough : leb b.threshold (length (b.failures ++ (now ∷ []))) ≡ true =
      le→leb b.threshold _ (omega (arith, length-append b.failures (now ∷ []))) in
    rw
      (
        drop_old-Recent b.failure_window now (b.failures ++ (now ∷ []))
            (All-append _ b.failures (now ∷ []) h (omega arith, tt)),
        enough,
      )
      refl

-- Every instant of the list lies in the window that ends at `now`.
abbrev pub Burst : ℕ → Instant → List Instant → Type 0
Burst window now = All (λ t. (t ≤ now) × (now ≤ t + window))

Burst-Recent :
    (window now t : ℕ) (ts : List Instant) → t ≤ now → Burst window now ts → Recent window t ts
Burst-Recent window now t [] le h = tt
Burst-Recent window now t (s ∷ ts) le (h, hs) =
    (omega (arith, h.1), Burst-Recent window now t ts le hs)

record_failures-settings :
    (ts : List Instant) (b : CircuitBreaker)
    → ((record_failures ts b).threshold ≡ b.threshold)
      × ((record_failures ts b).failure_window ≡ b.failure_window)
unfolding record_failures record_failure
record_failures-settings [] b = (refl, refl)
record_failures-settings (t ∷ ts) b = record_failures-settings ts (record_failure t b)

record_failures-failures :
    (ts : List Instant) (b : CircuitBreaker) (now : Instant)
    → Burst b.failure_window now b.failures
    → Burst b.failure_window now ts
    → (record_failures ts b).failures ≡ b.failures ++ ts
unfolding record_failures record_failure
record_failures-failures [] b now h k = sym (append-nil b.failures)
record_failures-failures (t ∷ ts) b now h (k, ks) =
    let grown : (record_failure t b).failures ≡ b.failures ++ (t ∷ []) =
      record_failure-failures b t (Burst-Recent b.failure_window now t b.failures k.0 h) in
    let burst : Burst b.failure_window now (record_failure t b).failures =
      rw grown (All-append _ b.failures (t ∷ []) h (k, tt)) in
    record_failures-failures ts (record_failure t b) now burst ks
    ∙ rw grown (append_assoc b.failures (t ∷ []) ts)

-- After failures that all lie in the window that ends at `now`, with those that the breaker held,
-- a failure at `now` opens it if they are `threshold` together.
pub record_failures-opened_at :
    (ts : List Instant) (b : CircuitBreaker) (now : Instant)
    → Burst b.failure_window now b.failures
    → Burst b.failure_window now ts
    → b.threshold ≤ length b.failures + length ts + 1
    → (record_failure now (record_failures ts b)).opened_at ≡ some now
record_failures-opened_at ts b now h k full =
    let c = record_failures ts b in
    let all_held = record_failures-failures ts b now h k in
    let (same_threshold, same_window) = record_failures-settings ts b in
    record_failure-opened_at c now
      (rw (all_held, same_window)
        (Burst-Recent b.failure_window now now (b.failures ++ ts) (omega arith)
          (All-append _ b.failures ts h k)))
      (rw (all_held, same_threshold) (omega (arith, length-append b.failures ts)))
