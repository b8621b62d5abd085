-- ===== src/Application/Dispatch/Fairness.antt =====
-- Every `_deliver` task ends after a bounded number of its own steps.
use domain_watcher.Application.Dispatch.{
  Phase, Task, DispatchNotificationsUseCase, start, sending, waiting, delivered, skipped, failed,
  key_of, crashed, land, loop_head, begin, fail, succeed, on_send_error, send_once, sleep_once,
  step, step_at, run,
}
use domain_watcher.Application.World.{Environment, World}
use domain_watcher.Checking.Retry.{Floats, delay_for}
use domain_watcher.Dict
use domain_watcher.Application.Events.{make_event, is_invalid, notification_failed}
use domain_watcher.Notification.Idempotency.{IdempotencyStore}
use domain_watcher.Notification.{Alert, Channel}
use domain_watcher.Prelude.{
  ℕ, zero, suc, ◌+◌, ◌-◌, ◌*◌, ◌≤◌, ◌<◌, ◌≡◌, refl, Bool, true, false, List, [], ◌∷◌, length, ltb,
  ltb→lt, ◌==◌, nat_eq, list_eq, arith, if◌then◌else◌, all, Bool-cases, Option-cases, inl, inr,
}
use domain_watcher.Shared.Errors.{
  Error, Result, Result-cases, delivery_failed_error, notification_error,
}
use native.Mathlib.Nat.{le_trans}
use domain_watcher.Shared.Text.{Text}

abbrev pub has_ended : Phase → Bool
has_ended start = false
has_ended (sending attempt) = false
has_ended (waiting attempt) = false
has_ended p = true

-- how often the schedule steps the task at a position
unfoldable pub turns : ℕ → List ℕ → ℕ
turns j [] = 0
turns j (i ∷ schedule) = (if i == j then 1 else 0) + turns j schedule

-- A bound on the steps that a task has left.
abbrev rank : ℕ → Phase → ℕ
rank max start = 2 * max + 1
rank max (sending attempt) = 2 * (max - attempt) + 2
rank max (waiting attempt) = 2 * (max - attempt) + 1
rank max p = 0

rank-has_ended : (max : ℕ) (p : Phase) → rank max p ≡ 0 → has_ended p ≡ true
rank-has_ended max start h = absurd (omega arith)
rank-has_ended max (sending attempt) h = absurd (omega arith)
rank-has_ended max (waiting attempt) h = absurd (omega arith)
rank-has_ended max delivered h = refl
rank-has_ended max skipped h = refl
rank-has_ended max failed h = refl
rank-has_ended max crashed h = refl

rank_at_most : (max : ℕ) (p : Phase) → rank max p ≤ 2 * max + 2
rank_at_most max start = omega arith
rank_at_most max (sending attempt) = omega arith
rank_at_most max (waiting attempt) = omega arith
rank_at_most max p = omega arith

-- the bound for the task at a position
abbrev rank_at : ℕ → ℕ → List Task → ℕ
rank_at max j [] = 0
rank_at max zero (t ∷ ts) = rank max t.phase
rank_at max (suc j) (t ∷ ts) = rank_at max j ts

module _ (F : Floats) {E S : Type 0} (env : Environment E) (store : IdempotencyStore S)
    (uc : DispatchNotificationsUseCase F env store) where
  abbrev max : ℕ
  max = uc.retry_policy.max_attempts

  abbrev Below : ℕ → Result Phase → Type 0
  Below n r = rank max (land r) ≤ n

  fail-Below :
      (alert : Alert) (channel : Channel) (reason : Text) (attempts : ℕ) (w : World E S)
      → Below 0 (fail F env store uc alert channel reason attempts w).0
  unfolding fail
  fail-Below alert channel reason attempts w =
      elim (Result-cases
        (make_event (notification_failed (env.now w.env).0 alert channel.id reason attempts))) [
          | inl (v, e) ↦ rw e (omega arith)
          | inr (x, e) ↦ rw e (omega arith)
        ]

  begin-Below :
      (alert : Alert) (channel : Channel) (w : World E S)
      → Below (2 * max) (begin F env store uc alert channel w).0
  unfolding begin loop_head
  begin-Below alert channel w =
      elim (Bool-cases (store.already_fired w.store (key_of alert channel))) [
        | inl e ↦ rw e (omega arith)
        | inr e ↦ rw e (elim (Option-cases (Dict.get uc.notifiers channel.notifier_id)) [
          | inl n ↦ rw n (le_trans (fail-Below alert channel _ 1 w) (omega arith))
          | inr (m, n) ↦ rw n (ground arith)
        ])
      ]

  succeed-Below :
      (alert : Alert) (channel : Channel) (w : World E S)
      → Below 0 (succeed F env store uc alert channel w).0
  unfolding succeed make_event is_invalid
  succeed-Below alert channel w = omega arith

  on_send_error-Below :
      (alert : Alert) (channel : Channel) (attempt : ℕ) (x : Error) (w : World E S)
      → Below (2 * (max - attempt) + 1) (on_send_error F env store uc alert channel attempt x w).0
  unfolding on_send_error
  on_send_error-Below alert channel attempt (delivery_failed_error m) w =
      elim (Bool-cases (ltb attempt max)) [
        | inl e ↦ rw e (omega arith)
        | inr e ↦ rw e (le_trans (fail-Below alert channel _ attempt w) (omega arith))
      ]
  on_send_error-Below alert channel attempt (notification_error m) w =
      le_trans (fail-Below alert channel _ attempt w) (omega arith)
  on_send_error-Below alert channel attempt x w = omega arith

  step-Below :
      (alert : Alert) (channel : Channel) (p : Phase) (w : World E S)
      → Below (rank max p - 1) (step F env store uc alert channel p w).0
  unfolding step send_once sleep_once loop_head
  step-Below alert channel start w = le_trans (begin-Below alert channel w) (omega arith)
  step-Below alert channel (sending attempt) w =
      elim (Result-cases (env.send channel.notifier_id alert channel w.env).0) [
        | inl (u, e) ↦ rw e (
            le_trans
              (succeed-Below alert channel
                (record w { env = (env.send channel.notifier_id alert channel w.env).1 }))
              (omega arith))
        | inr (x, e) ↦ rw e (
            le_trans
              (on_send_error-Below alert channel attempt x
                (record w { env = (env.send channel.notifier_id alert channel w.env).1 }))
              (omega arith))
      ]
  step-Below alert channel (waiting attempt) w =
      elim (Result-cases (delay_for F uc.retry_policy attempt)) [
        | inl (d, e) ↦ rw e (ground arith)
        | inr (x, e) ↦ rw e (omega arith)
      ]
  step-Below alert channel p w = omega arith

  step_at-rank :
      (i j : ℕ) (ts : List Task) (w : World E S)
      → rank_at max j (step_at F env store uc i ts w).0
        ≤ rank_at max j ts - (if i == j then 1 else 0)
  unfolding step_at
  step_at-rank i j [] w = omega arith
  step_at-rank zero zero (t ∷ ts) w = step-Below t.alert t.channel t.phase w
  step_at-rank zero (suc j) (t ∷ ts) w = ground arith
  step_at-rank (suc i) zero (t ∷ ts) w = ground arith
  step_at-rank (suc i) (suc j) (t ∷ ts) w = ground (arith, step_at-rank i j ts w)

  run-rank :
      (schedule : List ℕ) (j : ℕ) (ts : List Task) (w : World E S)
      → rank_at max j (run F env store uc schedule (ts, w)).0 ≤ rank_at max j ts - turns j schedule
  unfolding run turns
  run-rank [] j ts w = omega arith
  run-rank (i ∷ schedule) j ts w =
      let (us, v) = step_at F env store uc i ts w in
      le_trans (run-rank schedule j us v) (ground (arith, step_at-rank i j ts w))

  rank_at-bound : (j : ℕ) (ts : List Task) → rank_at max j ts ≤ 2 * max + 2
  rank_at-bound j [] = omega arith
  rank_at-bound zero (t ∷ ts) = rank_at_most max t.phase
  rank_at-bound (suc j) (t ∷ ts) = rank_at-bound j ts

  rank_at-length : (j : ℕ) (ts : List Task) → length ts ≤ j → rank_at max j ts ≡ 0
  rank_at-length j [] h = refl
  rank_at-length zero (t ∷ ts) h = absurd (omega arith)
  rank_at-length (suc j) (t ∷ ts) h = rank_at-length j ts (omega arith)

  all-has_ended :
      (ts : List Task) → ((j : ℕ) → rank_at max j ts ≡ 0) → all (λ t. has_ended t.phase) ts ≡ true
  unfolding all
  all-has_ended [] h = refl
  all-has_ended (t ∷ ts) h =
      rw (rank-has_ended max t.phase (h 0)) (all-has_ended ts (λ j. h (suc j)))

  -- Under a schedule that steps each task at least `2 * max_attempts + 2` times, in whatever order
  -- and whatever the notifiers answer, every task ends.
  pub run-has_ended :
      (schedule : List ℕ) (ts : List Task) (w : World E S)
      → ((j : ℕ) → j < length ts → 2 * uc.retry_policy.max_attempts + 2 ≤ turns j schedule)
      → all (λ t. has_ended t.phase) (run F env store uc schedule (ts, w)).0 ≡ true
  run-has_ended schedule ts w h = all-has_ended (run F env store uc schedule (ts, w)).0 (λ j.
      elim (Bool-cases (ltb j (length ts))) [
        | inl e ↦
            ground
              (arith, run-rank schedule j ts w, rank_at-bound j ts, h j (ltb→lt j (length ts) e))
        | inr e ↦ ground (arith, run-rank schedule j ts w, rank_at-length j ts (ground arith))
      ])
