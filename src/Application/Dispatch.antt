-- ===== src/Application/Dispatch.antt =====
-- `DispatchNotificationsUseCase` of application/use_cases/dispatch_notifications.py. Each
-- `_deliver` task is a state machine whose steps lie between two places where the coroutine can be
-- suspended; `asyncio.gather` is any schedule of the tasks' steps.
pub mod Effects
pub mod Accounting
pub mod Duplicates
pub mod Fairness
pub mod Silent
use domain_watcher.Application.Events.{
  Event, notification_dispatched, notification_failed, make_event,
}
use domain_watcher.Application.World.{Environment, World, outside, outside_raising, write, publish}
use domain_watcher.Checking.Retry.{Floats, RetryPolicy, delay_for}
use domain_watcher.Dict
use domain_watcher.Dict.{Dict}
use domain_watcher.Checking.{CheckResult}
use domain_watcher.Monitoring.{MonitoredDomain, LastCheck, no_items}
use domain_watcher.Notification.Policy.{NotificationPolicy, alerts_for}
use domain_watcher.Shared.Time.{Instant}
use domain_watcher.Notification.Idempotency.{Key, key, IdempotencyStore}
use domain_watcher.Notification.{Alert, Channel}
use domain_watcher.Prelude.{
  ℕ, zero, suc, ◌+◌, Bool, true, false, Option, none, some, List, [], ◌∷◌, ◌++◌, leb, ltb,
  if◌then◌else◌, list_eq, nat_eq, map,
}
use domain_watcher.Shared.Errors.{
  Error, Result, ok, raise, delivery_failed_error, notification_error,
}
use domain_watcher.Shared.Exec.{Exec, pure, throw, lift, try, continue, settle, ◌>>=◌, ◌>>◌}
use domain_watcher.Shared.Text.{Text, lit, or_else, repr}

-- Where a task stands. The last four are ends: what was sent and recorded, what had been fired
-- before, what `NotificationFailed` reports, and an exception that `gather` keeps.
pub data Phase : Type 0 where
  start : Phase
  sending waiting : ℕ → Phase
  delivered skipped failed crashed : Phase

pub record Task : Type 0 where
  pub alert : Alert
  pub channel : Channel
  pub phase : Phase

abbrev pub key_of : Alert → Channel → Key
key_of alert channel = key alert.domain alert.threshold alert.cycle_id channel.id

-- an exception ends the task
abbrev pub land : Result Phase → Phase
land (ok p) = p
land (raise e) = crashed

-- the tasks of `execute`, for each alert one for each channel
unfoldable pub tasks_for : Alert → List Channel → List Task
tasks_for alert [] = []
tasks_for alert (c ∷ cs) = record { alert = alert; channel = c; phase = start } ∷ tasks_for alert cs

unfoldable pub tasks : List Alert → List Channel → List Task
unfolding tasks_for
tasks [] channels = []
tasks (a ∷ as') channels = tasks_for a channels ++ tasks as' channels

module _ (F : Floats) {E S : Type 0} (env : Environment E) (store : IdempotencyStore S) where
  pub record DispatchNotificationsUseCase : Type 0 where
    pub notifiers : Dict Text Text
    pub retry_policy : RetryPolicy F

  module _ (uc : DispatchNotificationsUseCase) where
    abbrev pub Step : Type 0
    Step = Exec (World E S) Phase

    -- the head of `for attempt in range(1, max_attempts + 1)`
    unfoldable pub loop_head : ℕ → Phase
    loop_head attempt =
        if leb attempt uc.retry_policy.max_attempts then sending attempt else skipped

    -- publishes `NotificationFailed` and returns
    unfoldable pub fail : Alert → Channel → Text → ℕ → Step
    unfolding make_event
    fail alert channel reason attempts = do
      now ← outside env.now
      publish (notification_failed now alert channel.id reason attempts)
      pure failed

    -- the part in front of the loop
    unfoldable pub begin : Alert → Channel → Step
    unfolding loop_head fail
    begin alert channel w =
        if store.already_fired w.store (key_of alert channel)
        then (ok skipped, w)
        else elim (Dict.get uc.notifiers channel.notifier_id) [
          | none ↦ fail alert channel (lit "unknown notifier id " ++ repr channel.notifier_id) 1 w
          | some notifier ↦ (ok (loop_head 1), w)
        ]

    -- the `else` of the `try`: record, then publish `NotificationDispatched`
    unfoldable pub succeed : Alert → Channel → Step
    unfolding make_event
    succeed alert channel = do
      at ← outside env.now
      write (store.add (key_of alert channel) at)
      now ← outside env.now
      publish (notification_dispatched now alert channel.id)
      pure delivered

    -- the two `except` clauses
    unfoldable pub on_send_error : Alert → Channel → ℕ → Error → Step
    unfolding fail
    on_send_error alert channel attempt (delivery_failed_error m) =
        if ltb attempt uc.retry_policy.max_attempts
        then pure (waiting attempt)
        else fail alert channel (or_else m (lit "delivery_failed")) attempt
    on_send_error alert channel attempt (notification_error m) =
        fail alert channel (or_else m (lit "permanent_error")) attempt
    on_send_error alert channel attempt e = throw e

    unfoldable pub send_once : Alert → Channel → ℕ → Step
    unfolding succeed on_send_error
    send_once alert channel attempt =
        try (outside_raising (env.send channel.notifier_id alert channel))
          (on_send_error alert channel attempt) (λ _. succeed alert channel)

    -- `delay_for` and the sleeper, and the next round
    unfoldable pub sleep_once : ℕ → Step
    unfolding loop_head
    sleep_once attempt = do
      delay ← lift (delay_for F uc.retry_policy attempt)
      outside (λ e. (tt, env.sleep delay.seconds e))
      pure (loop_head (suc attempt))

    unfoldable pub step : Alert → Channel → Phase → Step
    step alert channel start = begin alert channel
    step alert channel (sending attempt) = send_once alert channel attempt
    step alert channel (waiting attempt) = sleep_once attempt
    step alert channel p = pure p

    abbrev pub Pool : Type 0
    Pool = List Task × World E S

    -- one step of the task at a position; a position behind the last task does nothing
    unfoldable pub step_at : ℕ → List Task → World E S → Pool
    step_at i [] w = ([], w)
    step_at zero (t ∷ ts) w =
        let (r, w') = step t.alert t.channel t.phase w in (record t { phase = land r } ∷ ts, w')
    step_at (suc i) (t ∷ ts) w = let (ts', w') = step_at i ts w in (t ∷ ts', w')

    -- the steps that a schedule makes
    unfoldable pub run : List ℕ → Pool → Pool
    run [] pool = pool
    run (i ∷ schedule) pool = run schedule (step_at i pool.0 pool.1)

module _ (F : Floats) {E S : Type 0} (env : Environment E) (store : IdempotencyStore S)
    (sha256_hex : Instant → Text) (resolver : MonitoredDomain → Result (List Channel)) where
  -- the part of `execute` in front of `create_task`: the tasks, none where it returns early
  unfoldable pub plan :
      NotificationPolicy
      → MonitoredDomain
      → Option LastCheck
      → CheckResult
      → Exec (World E S) (List Task)
  unfolding tasks
  plan policy domain previous current = do
    now ← outside env.now
    alerts ← lift (alerts_for sha256_hex policy previous current now)
    if no_items alerts
        then pure []
        else (do channels ← lift (resolver domain); pure (tasks alerts channels))
