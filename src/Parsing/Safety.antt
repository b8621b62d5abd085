-- ===== src/Parsing/Safety.antt =====
-- infrastructure/parsers/safety.py: `TokenBucketLimiter` (and `PerTldLimiter`, which is the same),
-- `CircuitBreaker` and `SuggesterCircuitBreaker`. Tokens are held exactly, in units of one
-- token / the window's length in microseconds, where the code has a float: a token is `window`
-- units, and a microsecond refills `capacity` units. What the clock returns is an argument.
pub mod Quota
pub mod Breaker
use domain_watcher.Dict
use domain_watcher.Dict.{Dict}
use domain_watcher.Parsing.{ParseRule}
use domain_watcher.Prelude.{
  ℕ, zero, suc, ◌+◌, ◌-◌, ◌*◌, Bool, true, false, not, Option, none, some, List, [], ◌∷◌, ◌++◌,
  length, leb, ltb, ◌==◌, list_eq, nat_eq, if◌then◌else◌,
}
use domain_watcher.Prelude.Int.{ℤ, sub_ℕ, leb_ℤ, ltb_ℤ, pos}
use domain_watcher.Shared.Errors.{Error, Result, ok, raise, value_error, suggestion_error}
use domain_watcher.Shared.Text.{Text, lit}
use domain_watcher.Shared.Time.{Instant}

-- `_Bucket`; its capacity and window are those of the limiter
pub record Bucket : Type 0 where
  pub tokens : ℕ
  pub last_refill : Instant

pub record TokenBucketLimiter : Type 0 where
  pub capacity : ℕ
  pub window : ℕ
  pub buckets : Dict Text Bucket

-- `__init__`
unfoldable pub make_limiter : ℕ → ℕ → Result TokenBucketLimiter
make_limiter capacity window =
    if ltb capacity 1
    then raise value_error
    else if leb window 0
    then raise value_error
    else ok (record { capacity = capacity; window = window; buckets = [] })

abbrev pub min : ℕ → ℕ → ℕ
min m n = if leb m n then m else n

-- the two branches that find or refill the bucket
unfoldable pub refilled : ℕ → ℕ → Instant → Option Bucket → Bucket
refilled capacity window now none = record { tokens = capacity * window; last_refill = now }
refilled capacity window now (some b) =
    if ltb b.last_refill now
    then record {
      tokens = min (capacity * window) (b.tokens + (now - b.last_refill) * capacity);
      last_refill = now;
    }
    else b

-- `if bucket.tokens >= 1.0`
unfoldable pub take_token : ℕ → Bucket → Bool × Bucket
take_token window b =
    if leb window b.tokens then (true, record b { tokens = b.tokens - window }) else (false, b)

unfoldable pub acquire : Text → Instant → TokenBucketLimiter → Bool × TokenBucketLimiter
unfolding refilled take_token
acquire key now l =
    let (granted, b) =
      take_token l.window (refilled l.capacity l.window now (Dict.get l.buckets key)) in
    (granted, record l { buckets = Dict.insert l.buckets key b })

pub record CircuitBreaker : Type 0 where
  pub threshold : ℕ
  pub failure_window : ℕ
  pub open_duration : ℕ
  pub failures : List Instant
  pub opened_at : Option Instant

-- `default_circuit_breaker`
unfoldable pub default_circuit_breaker : CircuitBreaker
default_circuit_breaker = record {
  threshold = 5;
  failure_window = 300000000;
  open_duration = 300000000;
  failures = [];
  opened_at = none;
}

abbrev pub is_open_since : Instant → CircuitBreaker → Option Instant → Bool × CircuitBreaker
is_open_since now b none = (false, b)
is_open_since now b (some at) =
    if leb_ℤ (pos b.open_duration) (sub_ℕ now at)
    then (false, record b { opened_at = none; failures = [] })
    else (true, b)

unfoldable pub is_open : Instant → CircuitBreaker → Bool × CircuitBreaker
is_open now b = is_open_since now b b.opened_at

unfoldable pub record_success : CircuitBreaker → CircuitBreaker
record_success b = record b { failures = []; opened_at = none }

-- the loop that drops old failures from the left
unfoldable pub drop_old : ℕ → Instant → List Instant → List Instant
drop_old window now [] = []
drop_old window now (t ∷ ts) =
    let rest = drop_old window now ts in if ltb_ℤ (pos window) (sub_ℕ now t) then rest else t ∷ ts

unfoldable pub record_failure : Instant → CircuitBreaker → CircuitBreaker
unfolding drop_old
record_failure now b =
    let failures = drop_old b.failure_window now (b.failures ++ (now ∷ [])) in
    record b {
      failures = failures;
      opened_at = if leb b.threshold (length failures) then some now else b.opened_at;
    }

-- `suggest` behind the test of the breaker; the clock reads `later` at a failure
unfoldable pub settle_suggestion :
    Instant → Result ParseRule → CircuitBreaker → Result ParseRule × CircuitBreaker
settle_suggestion later (ok rule) b = (ok rule, record_success b)
settle_suggestion later (raise (suggestion_error m t p)) b =
    (raise (suggestion_error m t p), record_failure later b)
settle_suggestion later (raise e) b = (raise e, b)

-- `SuggesterCircuitBreaker.suggest`: `inner` is the wrapped suggester on its own state
unfoldable pub suggest :
    {I : Type 0}
    → (I → Result ParseRule × I)
    → Instant
    → Instant
    → I × CircuitBreaker
    → Result ParseRule × (I × CircuitBreaker)
unfolding settle_suggestion
suggest inner now later (i, b) =
    let (opened, b') = is_open now b in
    if opened
    then (raise (suggestion_error (lit "circuit_open") true false), (i, b'))
    else (let (r, i') = inner i in let (r', b'') = settle_suggestion later r b' in (r', (i', b'')))
