-- ===== src/Notification/Policy/Cycle.antt =====
-- A whole expiration cycle: the alerts of one check after another, each of which finds the same
-- expiration. A round has the instant of the check, which `with_check_result` stores, and the
-- instant at which `DispatchNotificationsUseCase.execute` reads the clock for `alerts_for`.
use domain_watcher.Checking.{CheckResult, is_ok}
use domain_watcher.Monitoring.{LastCheck, is_descending}
use domain_watcher.Notification.Policy.Crossing.{
  IsSha256, crossed, same_cycle, fires, alert_of, alerts_for-filter,
}
use domain_watcher.Notification.Policy.{NotificationPolicy, alerts_for}
use domain_watcher.Notification.{Alert}
use domain_watcher.Prelude.{
  ℕ, ◌+◌, ◌≤◌, ◌<◌, ◌≡◌, refl, ap, Bool, true, false, List, [], ◌∷◌, ◌++◌, Option, none, some,
  arith, map, filter, any, All, Bool-cases, Option-cases, eq_iff, ◌∙◌, inl, inr, if◌then◌else◌,
  ◌==◌, nat_eq,
}
use domain_watcher.Shared.Duration.{Duration}
use domain_watcher.Shared.Errors.{Result, ok, ◌>>=◌}
use domain_watcher.Shared.Text.{Text}
use domain_watcher.Shared.Time.{Instant}

abbrev pub Rounds : Type 0
Rounds = List (Instant × Instant)

-- how often a threshold stands among the configured ones, and among the alerts
pub occurrences : Duration → List Duration → ℕ
occurrences t [] = 0
occurrences t (u ∷ us) = let n = occurrences t us in if u.seconds == t.seconds then n + 1 else n

pub fired : Duration → List Alert → ℕ
fired t [] = 0
fired t (a ∷ as') = let n = fired t as' in if a.threshold.seconds == t.seconds then n + 1 else n

fired-append : (t : Duration) (as' bs : List Alert) → fired t (as' ++ bs) ≡ fired t as' + fired t bs
unfolding fired
fired-append t [] bs = omega arith
fired-append t (a ∷ as') bs = ground (arith, fired-append t as' bs)

below :
    (t u : Duration) (us : List Duration)
    → is_descending (u ∷ us) ≡ true
    → u.seconds ≤ t.seconds
    → occurrences t us ≡ 0
unfolding occurrences is_descending
below t u [] h lt = refl
below t u (v ∷ us) h lt = ground (arith, below t v us)

-- A configured threshold is configured once.
occurrences_descending :
    (t : Duration) (us : List Duration)
    → is_descending us ≡ true
    → any (λ u. u.seconds == t.seconds) us ≡ true
    → occurrences t us ≡ 1
unfolding occurrences any is_descending
occurrences_descending t (u ∷ []) h m = ground arith
occurrences_descending t (u ∷ v ∷ us) h m =
    ground (arith, below t u (v ∷ us) h, occurrences_descending t (v ∷ us))
occurrences_descending t [] h m = cc

-- How often the threshold fires in the rounds, one after another.
fire_count : Instant → Option Instant → Rounds → Duration → ℕ
fire_count e before [] t = 0
fire_count e before ((at, now) ∷ r) t =
    let n = fire_count e (some at) r t in if fires e before now t then n + 1 else n

abbrev pub reached_in : Instant → Rounds → Duration → Bool
reached_in e r t = any (λ s. crossed e s.1 t) r

abbrev NotReached : Instant → Option Instant → Duration → Type 0
NotReached e none t = Unit
NotReached e (some at) t = crossed e at t ≡ false

-- The check before a cycle: there was none, or it found another expiration.
abbrev pub Before : Instant → Option LastCheck → Type 0
Before e none = Unit
Before e (some c) = ¬ (c.expires_at ≡ some e)

same_cycle-Before :
    (e : Instant) (previous : Option LastCheck) → Before e previous → same_cycle previous e ≡ none
unfolding same_cycle
same_cycle-Before e none h = refl
same_cycle-Before e (some c) h = elim (Option-cases c.expires_at) [
  | inl undated ↦ rw undated refl
  | inr (d, dated) ↦ rw dated (elim (Bool-cases (d == e)) [
    | inl same ↦ absurd (h (dated ∙ ap some ((eq_iff d e).0 same)))
    | inr other ↦ ground (arith, other)
  ])
]

-- Each dispatch reads the clock no earlier than its check did.
abbrev pub InOrder : Rounds → Type 0
InOrder = All (λ s. s.0 ≤ s.1)

fire_count_pos :
    (e : Instant) (before : Option Instant) (r : Rounds) (t : Duration)
    → InOrder r
    → NotReached e before t
    → reached_in e r t ≡ true
    → 0 < fire_count e before r t
unfolding fire_count fires any
fire_count_pos e none ((at, now) ∷ r) t o u h = ground (arith, fire_count_pos e (some at) r t o.1)
fire_count_pos e (some b) ((at, now) ∷ r) t o u h =
    ground (arith, fire_count_pos e (some at) r t o.1)
fire_count_pos e before [] t o u h = cc

-- The instants of the checks, each of which is also the instant of its dispatch.
abbrev pub at_once : List Instant → Rounds
at_once = map (λ i. (i, i))

-- No check is earlier than the one before it, or than `i`.
abbrev pub Ascending : Instant → List Instant → Type 0
Ascending i [] = Unit
Ascending i (j ∷ r) = (i ≤ j) × Ascending j r

fire_count-crossed :
    (e i : Instant) (r : List Instant) (t : Duration)
    → Ascending i r
    → crossed e i t ≡ true
    → fire_count e (some i) (at_once r) t ≡ 0
unfolding fire_count fires
fire_count-crossed e i [] t o h = refl
fire_count-crossed e i (j ∷ r) t o h = ground (arith, fire_count-crossed e j r t o.1)

fire_count_once :
    (e i : Instant) (r : List Instant) (t : Duration)
    → Ascending i r
    → crossed e i t ≡ false
    → fire_count e (some i) (at_once r) t ≡ (if reached_in e (at_once r) t then 1 else 0)
unfolding fire_count fires any
fire_count_once e i [] t o h = refl
fire_count_once e i (j ∷ r) t o h = elim (Bool-cases (crossed e j t)) [
  | inl c ↦ rw (c, h) (rw (fire_count-crossed e j r t o.1 c) refl)
  | inr n ↦ rw n (fire_count_once e j r t o.1 n)
]

fire_count_first :
    (e i : Instant) (r : List Instant) (t : Duration)
    → Ascending i r
    → fire_count e none (at_once (i ∷ r)) t ≡ (if reached_in e (at_once (i ∷ r)) t then 1 else 0)
unfolding fire_count fires any
fire_count_first e i r t o = elim (Bool-cases (crossed e i t)) [
  | inl c ↦ rw c (rw (fire_count-crossed e i r t o c) refl)
  | inr n ↦ rw n (fire_count_once e i r t o n)
]

module _ (sha256_hex : Instant → Text) (p : NotificationPolicy) (current : CheckResult)
    (e : Instant) where
  -- what `with_check_result` stores for a check at this instant
  abbrev pub stored : Instant → LastCheck
  stored at = record { at = at; outcome = current.outcome; expires_at = some e }

  abbrev pub append_all : Result (List Alert) → Result (List Alert) → Result (List Alert)
  append_all a b = a >>= λ x. b >>= λ y. ok (x ++ y)

  -- The alerts of the rounds, in order.
  unfoldable pub rounds : Option LastCheck → Rounds → Result (List Alert)
  rounds previous [] = ok []
  rounds previous ((at, now) ∷ r) =
      append_all (alerts_for sha256_hex p previous current now) (rounds (some (stored at)) r)

  module _ (h : IsSha256 sha256_hex) (good : is_ok current.outcome ≡ true)
      (dated : current.expires_at ≡ some e) where
    fires_cong :
        (before : Option Instant) (now : Instant) (u t : Duration)
        → u.seconds ≡ t.seconds
        → fires e before now u ≡ fires e before now t
    fires_cong before now u t q = ap (λ s. fires e before now (record { seconds = s })) q

    same_cycle-stored : (at : Instant) → same_cycle (some (stored at)) e ≡ some at
    unfolding same_cycle
    same_cycle-stored at = ground (arith)

    fired-filter :
        (t : Duration) (before : Option Instant) (now : Instant) (us : List Duration)
        → fired t (map (alert_of sha256_hex current.domain e) (filter (fires e before now) us))
          ≡ (if fires e before now t then occurrences t us else 0)
    unfolding fired filter occurrences alert_of
    fired-filter t before now [] = ground arith
    fired-filter t before now (u ∷ us) =
        ground (arith, fired-filter t before now us, fires_cong before now u t)

    rounds-fire_count :
        (t : Duration) (previous : Option LastCheck) (r : Rounds)
        → occurrences t p.thresholds ≡ 1
        → (as' : List Alert) × (rounds previous r ≡ ok as')
          × (fired t as' ≡ fire_count e (same_cycle previous e) r t)
    unfolding rounds fire_count
    rounds-fire_count t previous [] one = ([], refl, unfold fired in refl)
    rounds-fire_count t previous ((at, now) ∷ r) one =
        let (rest, done, counted) = rounds-fire_count t (some (stored at)) r one in
        let now_fired =
          map (alert_of sha256_hex current.domain e)
            (filter (fires e (same_cycle previous e) now) p.thresholds) in
        (
          now_fired ++ rest,
          rw (alerts_for-filter sha256_hex h p previous current now e good dated, done) refl,
          rw (fired-append t now_fired rest) (
              ground (
                arith,
                fired-filter t (same_cycle previous e) now p.thresholds,
                counted,
                same_cycle-stored at,
              )),
        )

    -- For a digest of 64 hexadecimal digits and a check that is OK and expires at `e`: over the rounds
    -- of a cycle, in front of which the domain had not been checked or had another expiration, by a
    -- policy whose thresholds are strictly descending and contain the threshold, with each dispatch no
    -- earlier than its check, a threshold that some dispatch finds reached fires at least once.
    pub rounds_no_missed :
        (t : Duration) (previous : Option LastCheck) (r : Rounds)
        → Before e previous
        → is_descending p.thresholds ≡ true
        → any (λ u. u.seconds == t.seconds) p.thresholds ≡ true
        → InOrder r
        → reached_in e r t ≡ true
        → (as' : List Alert) × (rounds previous r ≡ ok as') × (0 < fired t as')
    rounds_no_missed t previous r new desc mem order hit =
        let (as', done, counted) =
          rounds-fire_count t previous r (occurrences_descending t p.thresholds desc mem) in
        (
          as',
          done,
          rw (counted, same_cycle-Before e previous new) (fire_count_pos e none r t order tt hit),
        )

    -- Under the same conditions on the digest, the check, the policy and the start of the cycle: where each dispatch is at the
    -- instant of its check, and time does not go back, the threshold fires exactly once if some check
    -- of the cycle finds it reached, and never otherwise.
    pub rounds_once :
        (t : Duration) (previous : Option LastCheck) (i : Instant) (r : List Instant)
        → Before e previous
        → is_descending p.thresholds ≡ true
        → any (λ u. u.seconds == t.seconds) p.thresholds ≡ true
        → Ascending i r
        → (as' : List Alert) × (rounds previous (at_once (i ∷ r)) ≡ ok as')
          × (fired t as' ≡ (if reached_in e (at_once (i ∷ r)) t then 1 else 0))
    rounds_once t previous i r new desc mem order =
        let (as', done, counted) =
          rounds-fire_count t previous (at_once (i ∷ r))
            (occurrences_descending t p.thresholds desc mem) in
        (as', done, rw (counted, same_cycle-Before e previous new) (fire_count_first e i r t order))
