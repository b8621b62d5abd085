-- ===== src/Parsing/Engine.antt =====
-- What the parsers use of Python: the regex engine, `int`, `datetime` and `zoneinfo`. A failure
-- carries the text of the exception.
use domain_watcher.Prelude.Int.{ℤ}
use domain_watcher.Prelude.{ℕ, List, Option}
use domain_watcher.Shared.Errors.{Result}
use domain_watcher.Shared.Text.{Text}
use domain_watcher.Shared.Time.{Instant, Datetime}

-- `failure` is the exception that the caller catches (`ValueError`, and `ZoneInfoNotFoundError` for
-- `ZoneInfo`), `escape` any other.
pub data Attempt (A : Type 0) : Type 0 where
  done : A → Attempt A
  failure escape : Text → Attempt A

pub record Runtime : Type 0 where
  -- `re.compile(raw).groups`, or nothing where it raises `re.error`
  pub groups : Text → Option ℕ
  -- `re.compile(raw).search(text)`: on a match, group 1, if that took part in it
  pub search : Text → Text → Option (Option Text)
  -- group 1 of every match of `_REGISTRATION_LINE_RE`
  pub registration_values : Text → List Text
  -- `int(text)`
  pub parse_int : Text → Attempt ℤ
  -- `datetime.fromisoformat(text)`
  pub from_iso : Text → Attempt Datetime
  -- `datetime.strptime(text, format)`
  pub strptime : Text → Text → Attempt Datetime
  -- `datetime(year=…, month=…, day=…)`
  pub date : ℤ → ℕ → ℤ → Attempt Datetime
  -- `datetime.fromtimestamp(seconds, tz=UTC)`
  pub from_timestamp : ℤ → Attempt Instant
  -- `ZoneInfo(name)`, as the map from a wall-clock reading to its instant in UTC: `astimezone`
  -- raises `OverflowError` for an instant out of the range of `datetime`
  pub zone : Text → Attempt (ℕ → Result Instant)
  -- `dt.isoformat()`
  pub isoformat : Instant → Text
