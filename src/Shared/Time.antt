-- ===== src/Shared/Time.antt =====
-- Datetimes and timedeltas, and the clocks of core/shared/time_provider.py. An aware datetime is
-- the number of microseconds from `datetime.min` in UTC; the upper end of the range of `datetime`
-- and `timedelta` is not modelled, nor an aware datetime that lies before `datetime.min` in UTC,
-- for which `astimezone` raises `OverflowError`.
use domain_watcher.Prelude.{ℕ, Bool, true, false}
use domain_watcher.Prelude.Int.{ℤ, sub_ℕ}

abbrev pub Instant : Type 0
Instant = ℕ

-- what a constructor may be handed: with a time zone, or without one
pub data Datetime : Type 0 where
  aware : Instant → Datetime
  naive : ℕ → Datetime

-- `dt.tzinfo is None or dt.tzinfo.utcoffset(dt) is None`
abbrev pub is_naive : Datetime → Bool
is_naive (aware _) = false
is_naive (naive _) = true

abbrev pub TimeDelta : Type 0
TimeDelta = ℤ

abbrev pub second : ℕ
second = 1000000

-- `a - b`
abbrev pub since : Instant → Instant → TimeDelta
since a b = sub_ℕ a b
