-- ===== src/Checking.antt =====
-- core/checking: `CheckOutcome` and `CheckResult` of value_objects.py, with the checks of
-- `__post_init__`.
mod Outcome
pub mod Retry
pub use Outcome.{CheckOutcome}
use domain_watcher.Prelude.{
  ◌≡◌, Bool, true, false, ◌&&◌, ◌||◌, not, Option, none, some, if◌then◌else◌, is_some, map_option,
  arith,
}
use domain_watcher.Shared.DomainName.{DomainName}
use domain_watcher.Shared.Errors.{Result, ok, raise, value_error, raise_if, ◌>>=◌, ◌>>◌}
use domain_watcher.Shared.Text.{Text, is_empty}
use domain_watcher.Shared.Time.{Instant, Datetime, aware, naive, is_naive}

-- `outcome is CheckOutcome.OK`
abbrev pub is_ok : CheckOutcome → Bool
is_ok CheckOutcome.ok = true
is_ok _ = false

pub record CheckResult : Type 0 where
  pub domain : DomainName
  pub outcome : CheckOutcome
  pub expires_at : Option Instant
  pub source : Text
  pub raw : Option Text
  pub error : Option Text

-- `a != b`
abbrev pub differ : Bool → Bool → Bool
differ true b = not b
differ false b = b

-- `not error`, for an optional message
abbrev pub no_text : Option Text → Bool
no_text none = true
no_text (some m) = is_empty m

abbrev pub naive_option : Option Datetime → Bool
naive_option none = false
naive_option (some d) = is_naive d

-- a datetime that has passed the test for a time zone
abbrev pub instant : Datetime → Instant
instant (aware i) = i
instant (naive i) = i

-- `CheckResult(…)`
unfoldable pub make_result :
    DomainName
    → CheckOutcome
    → Option Datetime
    → Text
    → Option Text
    → Option Text
    → Result CheckResult
make_result domain outcome expires_at source raw error = do
  raise_if (differ (is_ok outcome) (is_some expires_at)) value_error
  raise_if (not (is_ok outcome) && no_text error) value_error
  raise_if (naive_option expires_at) value_error
  ok (record {
    domain = domain;
    outcome = outcome;
    expires_at = map_option instant expires_at;
    source = source;
    raw = raw;
    error = error;
  })

-- What every `CheckResult` satisfies.
pub record IsResult (r : CheckResult) : Type 0 where
  pub dated : is_ok r.outcome ≡ is_some r.expires_at
  pub explained : is_ok r.outcome ≡ false → no_text r.error ≡ false

-- Every result that the constructor accepts has an expiration exactly if it is OK, and a message that
-- is not empty if it is not OK.
pub make_result-IsResult :
    (domain : DomainName) (outcome : CheckOutcome) (expires_at : Option Datetime) (source : Text)
    (raw error : Option Text) {r : CheckResult}
    → make_result domain outcome expires_at source raw error ≡ ok r
    → IsResult r
unfolding make_result
make_result-IsResult domain o expires_at source raw error h = ground arith
