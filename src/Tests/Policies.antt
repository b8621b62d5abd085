-- ===== src/Tests/Policies.antt =====
-- The alerts of one check and of a cycle.
use domain_watcher.Notification.Policy.Crossing.{
  IsSha256, fires, alert_of, same_cycle, alerts_for-filter,
}
use domain_watcher.Notification.Policy.Cycle.{
  Before, rounds, at_once, fired, reached_in, rounds_no_missed, rounds_once,
}
use domain_watcher.Notification.Policy.{alerts_for}
use domain_watcher.Notification.{Alert, is_hex}
use domain_watcher.Monitoring.{LastCheck, is_descending}
use domain_watcher.Prelude.{
  ◌-◌, ◌*◌, ◌<◌, ◌≡◌, refl, arith, true, List, [], ◌∷◌, Option, none, some, map, filter, any, all,
  if◌then◌else◌, ◌==◌, nat_eq,
}
use domain_watcher.Shared.Errors.{ok}
use domain_watcher.Shared.Text.{Text}
use domain_watcher.Shared.Time.{Instant, second}
use domain_watcher.Tests.Data.{zeros, policy, good_result, expiry, site, week}

abbrev digest : Instant → Text
digest i = zeros 64

digest-IsSha256 : IsSha256 digest
unfolding zeros all is_hex
digest-IsSha256 = record { digits = λ i. refl; size = λ i. refl }

-- five days before the expiration
abbrev late : Instant
late = expiry - 432000 * second

-- twenty days before it
abbrev early : Instant
early = expiry - 1728000 * second

alerts_for-filter_example :
    alerts_for digest policy none good_result late
    ≡ ok (
        map
          (alert_of digest site expiry)
          (filter (fires expiry (same_cycle none expiry) late) policy.thresholds))
alerts_for-filter_example =
    alerts_for-filter digest digest-IsSha256 policy none good_result late expiry refl refl

configured : any (λ u. u.seconds == week.seconds) policy.thresholds ≡ true
unfolding any
configured = refl

descending : is_descending policy.thresholds ≡ true
unfolding is_descending
descending = refl

reached : reached_in expiry ((early, early) ∷ (late, late) ∷ []) week ≡ true
unfolding any
reached = refl

-- a check of the year before, five days before the expiration that it found
abbrev renewed : Option LastCheck
renewed = some (record {
  at = 1000000 * second;
  outcome = good_result.outcome;
  expires_at = some (1432000 * second);
})

is_renewed : Before expiry renewed
is_renewed h = absurd (ground (arith, h))

rounds_no_missed_example :
    (as' : List Alert) × (rounds digest policy good_result expiry renewed
        ((early, early) ∷ (late, late) ∷ [])
      ≡ ok as')
    × (0 < fired week as')
rounds_no_missed_example =
    rounds_no_missed digest policy good_result expiry digest-IsSha256 refl refl week renewed
      ((early, early) ∷ (late, late) ∷ []) is_renewed descending configured
      (omega arith, (omega arith, tt)) reached

rounds_once_example :
    (as' : List Alert) × (rounds digest policy good_result expiry renewed
        (at_once (early ∷ late ∷ []))
      ≡ ok as')
    × (fired week as' ≡ (if reached_in expiry (at_once (early ∷ late ∷ [])) week then 1 else 0))
rounds_once_example =
    rounds_once digest policy good_result expiry digest-IsSha256 refl refl week renewed early
      (late ∷ []) is_renewed descending configured (omega arith, tt)
