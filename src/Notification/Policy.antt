-- ===== src/Notification/Policy.antt =====
-- core/notification/policies.py: the severity of a threshold, and `NotificationPolicy`.
-- `hashlib.sha256(expires_at.isoformat().encode()).hexdigest()` is a parameter: the 64 digits of
-- an expiration instant.
pub mod Crossing
pub mod Cycle
use domain_watcher.Checking.{CheckOutcome, CheckResult, is_ok}
use domain_watcher.Monitoring.{LastCheck, is_descending, no_items}
use domain_watcher.Notification.{Alert, AlertSeverity, info, warning, critical, make_alert}
use domain_watcher.Prelude.Int.{leb_ℤ}
use domain_watcher.Prelude.{
  ℕ, zero, suc, ◌≡◌, Bool, true, false, ◌&&◌, not, List, [], ◌∷◌, Option, none, some, leb,
  if◌then◌else◌, ◌==◌, nat_eq, ◌||◌,
}
use domain_watcher.Shared.DomainName.{DomainName}
use domain_watcher.Shared.Duration.{Duration, of_days, as_timedelta}
use domain_watcher.Shared.Errors.{Result, ok, raise, value_error, raise_if, ◌>>=◌, ◌>>◌}
use domain_watcher.Shared.Text.{Text}
use domain_watcher.Shared.Time.{Instant, TimeDelta, since, aware}

abbrev pub take : ℕ → Text → Text
take zero s = []
take (suc n) [] = []
take (suc n) (c ∷ s) = c ∷ take n s

-- `_severity_for`
unfoldable pub severity_for : Duration → AlertSeverity
severity_for threshold =
    if leb threshold.seconds (of_days 1).seconds
    then critical
    else if leb threshold.seconds (of_days 7).seconds
    then warning
    else info

pub record NotificationPolicy : Type 0 where
  pub thresholds : List Duration

-- `NotificationPolicy(…)`
unfoldable pub make : List Duration → Result NotificationPolicy
make thresholds = do
  raise_if (no_items thresholds) value_error
  raise_if (not (is_descending thresholds)) value_error
  ok (record { thresholds = thresholds })

-- the time that was left at the previous check, if that check was of the same cycle
unfoldable pub prev_time_left : Option LastCheck → Instant → Option TimeDelta
prev_time_left none expires_at = none
prev_time_left (some previous) expires_at = elim previous.expires_at [
  | none ↦ none
  | some e ↦ if is_ok previous.outcome && e == expires_at then some (since e previous.at) else none
]

-- `prev_time_left is not None and prev_time_left <= threshold.as_timedelta()`
unfoldable pub crossed_before : Option TimeDelta → Duration → Bool
crossed_before none threshold = false
crossed_before (some left) threshold = leb_ℤ left (as_timedelta threshold)

module _ (sha256_hex : Instant → Text) where
  -- `_cycle_id`
  unfoldable pub cycle_id : Instant → Text
  cycle_id expires_at = take 16 (sha256_hex expires_at)

  -- the loop of `alerts_for`
  unfoldable pub alerts_loop :
      DomainName → Instant → TimeDelta → Option TimeDelta → List Duration → Result (List Alert)
  unfolding severity_for make_alert cycle_id crossed_before
  alerts_loop domain expires_at left prev [] = ok []
  alerts_loop domain expires_at left prev (t ∷ ts) =
      let rest = alerts_loop domain expires_at left prev ts in
      if not (leb_ℤ left (as_timedelta t)) || crossed_before prev t then rest else do
        alert ← make_alert domain (aware expires_at) t (severity_for t) (cycle_id expires_at)
        alerts ← rest
        ok (alert ∷ alerts)

  -- `NotificationPolicy.alerts_for`
  unfoldable pub alerts_for :
      NotificationPolicy → Option LastCheck → CheckResult → Instant → Result (List Alert)
  unfolding alerts_loop prev_time_left
  alerts_for p previous current now =
      if not (is_ok current.outcome) then ok [] else elim current.expires_at [
        | none ↦ ok []
        | some e ↦
            alerts_loop current.domain e (since e now) (prev_time_left previous e) p.thresholds
      ]
