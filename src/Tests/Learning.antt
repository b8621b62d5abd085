-- ===== src/Tests/Learning.antt =====
-- The learned rules and the limiter.
use domain_watcher.Dict
use domain_watcher.Parsing.LearnedRules.Unique.{
  IsUnique, adding, disabling, marking, calls, reachable-IsUnique,
}
use domain_watcher.Parsing.LearnedRules.{Sample, no_rules}
use domain_watcher.Parsing.Safety.Quota.{Calls, granted, granted_at_most}
use domain_watcher.Parsing.Safety.Breaker.{record_failures, record_failures-opened_at}
use domain_watcher.Parsing.Safety.{TokenBucketLimiter, CircuitBreaker, record_failure}
use domain_watcher.Parsing.{ParseRule}
use domain_watcher.Shared.Errors.{Result, ok}
use domain_watcher.Prelude.{
  ℕ, List, ◌+◌, ◌*◌, ◌-◌, ◌≤◌, ◌≡◌, refl, arith, [], ◌∷◌, none, some, list_eq, nat_eq,
}
use domain_watcher.Tests.Data.{rule, runtime, site, zeros}

abbrev sample : Sample
sample = record { sha256 = zeros 64; domain = site; suggester_id = b's' ∷ []; pipeline_version = 1 }

reachable-IsUnique_example : IsUnique (
    calls runtime
      (adding rule sample 1 ∷ marking 1 2 ∷ disabling 1 ∷ adding rule sample 3 ∷ [])
      no_rules)
reachable-IsUnique_example =
    reachable-IsUnique runtime
      (adding rule sample 1 ∷ marking 1 2 ∷ disabling 1 ∷ adding rule sample 3 ∷ [])

abbrev limiter : TokenBucketLimiter
limiter = record { capacity = 2; window = 10; buckets = [] }

abbrev host_calls : Calls
host_calls = (b'h' ∷ [], 4) ∷ (b'h' ∷ [], 5) ∷ (b'h' ∷ [], 6) ∷ (b'h' ∷ [], 20) ∷ []

empty_bucket : Dict.get limiter.buckets (b'h' ∷ []) ≡ none
unfolding Dict.get
empty_bucket = refl

granted_at_most_example :
    limiter.window * granted (b'h' ∷ []) host_calls limiter
    ≤ limiter.capacity * limiter.window + limiter.capacity * (24 - 4)
granted_at_most_example = granted_at_most 4 24 (b'h' ∷ []) host_calls limiter empty_bucket (
  (omega arith, omega arith),
  ((omega arith, omega arith), ((omega arith, omega arith), ((omega arith, omega arith), tt))),
)

-- the readings of the clock at two calls, before and after
abbrev suggest_calls : List (ℕ × ℕ)
suggest_calls = (6, 7) ∷ (54, 54) ∷ []

abbrev opened_breaker : CircuitBreaker
opened_breaker = record {
  threshold = 2;
  failure_window = 100;
  open_duration = 50;
  failures = 3 ∷ 5 ∷ [];
  opened_at = some 5;
}

abbrev suggester : ℕ → Result ParseRule × ℕ
suggester n = (ok rule, n + 1)

abbrev closed_breaker : CircuitBreaker
closed_breaker = record {
  threshold = 3;
  failure_window = 100;
  open_duration = 50;
  failures = [];
  opened_at = none;
}

record_failures-opened_at_example :
    (record_failure 90 (record_failures (10 ∷ 80 ∷ []) closed_breaker)).opened_at ≡ some 90
record_failures-opened_at_example =
    record_failures-opened_at (10 ∷ 80 ∷ []) closed_breaker 90 tt
      ((omega arith, omega arith), ((omega arith, omega arith), tt)) (omega arith)
