-- ===== src/Monitoring.antt =====
-- core/monitoring: `ChannelId`, `CheckSchedule` and `LastCheck` of value_objects.py, and the
-- aggregate `MonitoredDomain` of entities.py.
pub mod Repository
use domain_watcher.Checking.{CheckOutcome, CheckResult, is_ok, differ, naive_option, instant}
use domain_watcher.Prelude.Int.{pos, leb_ℤ}
use domain_watcher.Prelude.{
  ℕ, ◌*◌, ◌<◌, ◌≡◌, Bool, true, false, ◌&&◌, ◌||◌, not, List, [], ◌∷◌, Option, none, some, leb, ltb,
  length, if◌then◌else◌, is_some, map_option, arith, nat_eq, ◌==◌,
}
use domain_watcher.Shared.DomainName.{DomainName}
use domain_watcher.Shared.Duration.{Duration}
use domain_watcher.Shared.Errors.{Result, ok, raise, value_error, raise_if, ◌>>=◌, ◌>>◌}
use domain_watcher.Shared.Text.{Text, is_empty, strip, split}
use domain_watcher.Shared.Time.{Instant, Datetime, aware, naive, is_naive, since, second}
use domain_watcher.Dict.{Dict}

pub record ChannelId : Type 0 where
  pub value : Text

-- `ChannelId(value)`
unfoldable pub make_channel_id : Text → Result ChannelId
make_channel_id value = do
  raise_if (is_empty (strip value)) value_error
  ok (record { value = strip value })

pub record CheckSchedule : Type 0 where
  pub cron : Text

-- `CheckSchedule(cron)`
unfoldable pub make_schedule : Text → Result CheckSchedule
make_schedule cron = do
  raise_if (is_empty (strip cron)) value_error
  raise_if (not (length (split cron) == 5)) value_error
  ok (record { cron = cron })

pub record LastCheck : Type 0 where
  pub at : Instant
  pub outcome : CheckOutcome
  pub expires_at : Option Instant

-- `LastCheck(…)`
unfoldable pub make_last_check : Datetime → CheckOutcome → Option Datetime → Result LastCheck
make_last_check at outcome expires_at = do
  raise_if (differ (is_ok outcome) (is_some expires_at)) value_error
  raise_if (is_naive at) value_error
  raise_if (naive_option expires_at) value_error
  ok (record { at = instant at; outcome = outcome; expires_at = map_option instant expires_at })

pub record MonitoredDomain : Type 0 where
  pub name : DomainName
  pub schedule : CheckSchedule
  pub checker_id : Text
  pub notify_thresholds : List Duration
  pub channels : List ChannelId
  pub last_check : Option LastCheck
  pub metadata : Dict Text Text

-- the loop over `itertools.pairwise`: no threshold reaches the one before it
unfoldable pub is_descending : List Duration → Bool
is_descending [] = true
is_descending (d ∷ []) = true
is_descending (d ∷ e ∷ ds) = ltb e.seconds d.seconds && is_descending (e ∷ ds)

abbrev pub no_items {ℓ} : {A : Type ℓ} → List A → Bool
no_items [] = true
no_items (x ∷ xs) = false

-- `MonitoredDomain.__post_init__`, on the fields that the arguments give
unfoldable pub check_domain : MonitoredDomain → Result MonitoredDomain
unfolding is_descending
check_domain d = do
  raise_if (no_items d.notify_thresholds) value_error
  raise_if (not (is_descending d.notify_thresholds)) value_error
  raise_if (no_items d.channels) value_error
  raise_if (is_empty d.checker_id) value_error
  ok d

-- `last_check is not None and at < last_check.at`
abbrev pub goes_back : Option LastCheck → Instant → Bool
goes_back none at = false
goes_back (some c) at = ltb at c.at

-- `MonitoredDomain.with_check_result`
unfoldable pub with_check_result : MonitoredDomain → CheckResult → Instant → Result MonitoredDomain
unfolding make_last_check check_domain
with_check_result d result at = do
  raise_if (goes_back d.last_check at) value_error
  last ← make_last_check (aware at) result.outcome (map_option aware result.expires_at)
  check_domain (record d { last_check = some last })

-- `MonitoredDomain.is_due`: six hours have passed
unfoldable pub is_due : MonitoredDomain → Instant → Bool
is_due d now = elim d.last_check [
  | none ↦ true
  | some c ↦ leb_ℤ (pos (21600 * second)) (since now c.at)
]
