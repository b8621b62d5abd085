-- ===== src/Checking/Retry.antt =====
-- `RetryPolicy` of core/checking/policies.py. Python's floats are a parameter: their type, the test
-- of the sign, and `round(s * factor ** k)`, which raises `OverflowError` or `ValueError` where it
-- leaves their range.
use domain_watcher.Prelude.Int.{ℤ, pos_part}
use domain_watcher.Prelude.{ℕ, ◌-◌, Bool, ltb, leb}
use domain_watcher.Shared.Duration.{Duration}
use domain_watcher.Shared.Errors.{Result, ok, value_error, raise_if, ◌>>=◌, ◌>>◌}

pub record Floats : Type 1 where
  pub Float : Type 0
  -- `factor < 0`
  pub is_negative : Float → Bool
  -- `round(seconds * factor ** k)`
  pub scaled : ℕ → Float → ℕ → Result ℤ

module _ (F : Floats) where
  pub record RetryPolicy : Type 0 where
    pub max_attempts : ℕ
    pub base_delay : Duration
    pub factor : F.Float

  -- `RetryPolicy(…)`
  unfoldable pub make : ℕ → Duration → F.Float → Result RetryPolicy
  make max_attempts base_delay factor = do
    raise_if (ltb max_attempts 1) value_error
    raise_if (F.is_negative factor) value_error
    ok (record { max_attempts = max_attempts; base_delay = base_delay; factor = factor })

  -- `delay_for`: the wait before attempt N + 1
  unfoldable pub delay_for : RetryPolicy → ℕ → Result Duration
  delay_for p attempt = do
    raise_if (ltb attempt 1) value_error
    raise_if (leb p.max_attempts attempt) value_error
    seconds ← F.scaled p.base_delay.seconds p.factor (attempt - 1)
    ok (record { seconds = pos_part seconds })
