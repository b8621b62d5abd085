-- ===== src/Notification/Policy/Crossing.antt =====
-- Which thresholds `alerts_for` fires, as a filter over the configured thresholds.
use domain_watcher.Checking.{CheckResult, is_ok}
use domain_watcher.Monitoring.{LastCheck}
use domain_watcher.Notification.Policy.{
  NotificationPolicy, take, severity_for, cycle_id, prev_time_left, crossed_before, alerts_loop,
  alerts_for,
}
use domain_watcher.Notification.{Alert, make_alert, hex_re, is_hex}
use domain_watcher.Prelude.Int.{leb-sub_ℕ}
use domain_watcher.Prelude.{
  ℕ, zero, suc, ◌+◌, ◌*◌, ◌≡◌, refl, ap, Bool, true, false, ◌&&◌, not, List, [], ◌∷◌, Option, none,
  some, leb, arith, map, filter, all, length, if◌then◌else◌, ◌==◌, nat_eq,
}
use domain_watcher.Shared.DomainName.{DomainName}
use domain_watcher.Shared.Duration.{Duration}
use domain_watcher.Shared.Errors.{ok}
use domain_watcher.Shared.Text.{Text}
use domain_watcher.Shared.Time.{Instant, since, aware, second}

-- The digest of every instant is 64 lowercase hexadecimal digits.
pub record IsSha256 (sha256_hex : Instant → Text) : Type 0 where
  pub digits : (i : Instant) → all is_hex (sha256_hex i) ≡ true
  pub size : (i : Instant) → length (sha256_hex i) ≡ 64

length-take : (n : ℕ) (k : ℕ) (s : Text) → length s ≡ n + k → length (take n s) ≡ n
length-take zero k s h = refl
length-take (suc n) k [] h = absurd (omega arith)
length-take (suc n) k (c ∷ s) h = ap suc (length-take n k s (omega arith))

all-take : (p : ℕ → Bool) (n : ℕ) (s : Text) → all p s ≡ true → all p (take n s) ≡ true
unfolding all
all-take p zero s h = refl
all-take p (suc n) [] h = refl
all-take p (suc n) (c ∷ s) h = ground (arith, all-take p n s)

-- The threshold `t` of a domain that expires at `e` has been reached at `now`.
abbrev pub crossed : Instant → Instant → Duration → Bool
crossed e now t = leb e (now + t.seconds * second)

-- The instant of the previous check, if that check found the same expiration.
unfoldable pub same_cycle : Option LastCheck → Instant → Option Instant
same_cycle none e = none
same_cycle (some c) e = elim c.expires_at [
  | none ↦ none
  | some e' ↦ if is_ok c.outcome && e' == e then some c.at else none
]

abbrev pub crossed_at : Instant → Option Instant → Duration → Bool
crossed_at e none t = false
crossed_at e (some at) t = crossed e at t

-- A threshold fires when it has been reached now and had not been at the previous check of the cycle.
unfoldable pub fires : Instant → Option Instant → Instant → Duration → Bool
fires e before now t = crossed e now t && not (crossed_at e before t)

crossed_before-eq-crossed_at :
    (previous : Option LastCheck) (e : Instant) (t : Duration)
    → crossed_before (prev_time_left previous e) t ≡ crossed_at e (same_cycle previous e) t
unfolding crossed_before prev_time_left same_cycle
crossed_before-eq-crossed_at none e t = refl
crossed_before-eq-crossed_at (some c) e t = ground arith

module _ (sha256_hex : Instant → Text) where
  -- The alert of one threshold.
  unfoldable pub alert_of : DomainName → Instant → Duration → Alert
  alert_of domain e t = record {
    domain = domain;
    expires_at = e;
    threshold = t;
    severity = severity_for t;
    cycle_id = cycle_id sha256_hex e;
    metadata = [];
  }

  module _ (h : IsSha256 sha256_hex) where
    cycle_id-hex_re : (e : Instant) → hex_re 16 (cycle_id sha256_hex e) ≡ true
    unfolding hex_re cycle_id
    cycle_id-hex_re e = ground (
      arith,
      length-take 16 48 (sha256_hex e) (h.size e),
      all-take is_hex 16 (sha256_hex e) (h.digits e),
    )

    make_alert-alert_of :
        (domain : DomainName) (e : Instant) (t : Duration)
        → make_alert domain (aware e) t (severity_for t) (cycle_id sha256_hex e)
          ≡ ok (alert_of domain e t)
    unfolding make_alert alert_of
    make_alert-alert_of domain e t = rw (cycle_id-hex_re e)

    alerts_loop-filter :
        (domain : DomainName) (e now : Instant) (previous : Option LastCheck) (ts : List Duration)
        → alerts_loop sha256_hex domain e (since e now) (prev_time_left previous e) ts
          ≡ ok (map (alert_of domain e) (filter (fires e (same_cycle previous e) now) ts))
    unfolding alerts_loop filter fires
    alerts_loop-filter domain e now previous [] = refl
    alerts_loop-filter domain e now previous (t ∷ ts) =
        rw
          (
            alerts_loop-filter domain e now previous ts,
            make_alert-alert_of domain e t,
            crossed_before-eq-crossed_at previous e t,
          )
          (ground (arith, leb-sub_ℕ e now (t.seconds * second)))

    -- For a digest of 64 hexadecimal digits and a result that is OK and expires at `e`, the alerts are
    -- those of the policy's thresholds, in order, that have been reached now and had not been at the
    -- previous check of the same cycle.
    pub alerts_for-filter :
        (p : NotificationPolicy) (previous : Option LastCheck) (current : CheckResult)
        (now e : Instant)
        → is_ok current.outcome ≡ true
        → current.expires_at ≡ some e
        → alerts_for sha256_hex p previous current now
          ≡ ok (
              map
                (alert_of current.domain e)
                (filter (fires e (same_cycle previous e) now) p.thresholds))
    unfolding alerts_for
    alerts_for-filter p previous current now e good dated =
        rw (good, dated) (alerts_loop-filter current.domain e now previous p.thresholds)

    -- No other result raises an alert.
    pub alerts_for-not_ok :
        (p : NotificationPolicy) (previous : Option LastCheck) (current : CheckResult)
        (now : Instant)
        → is_ok current.outcome ≡ false
        → alerts_for sha256_hex p previous current now ≡ ok []
    unfolding alerts_for
    alerts_for-not_ok p previous current now bad = rw bad
