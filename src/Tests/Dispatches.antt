-- ===== src/Tests/Dispatches.antt =====
-- `DispatchNotificationsUseCase` on two tasks, and the scheduler on one domain.
use domain_watcher.Application.ChannelResolver.{Resolved, channels_for, channels_for-Resolved}
use domain_watcher.Application.Dispatch.Fairness.{turns, has_ended, run-has_ended}
use domain_watcher.Application.Dispatch.Accounting.{dispatch_at_most, dispatch_recorded}
use domain_watcher.Application.Dispatch.Effects.{dispatched, deliveries, pending}
use domain_watcher.Application.Dispatch.Duplicates.{fresh, fires_twice}
use domain_watcher.Application.Dispatch.{DispatchNotificationsUseCase, Task, key_of, run}
use domain_watcher.Application.Scheduling.Reconciled.{settled, wanted, get-reconcile}
use domain_watcher.Application.Scheduling.{Jobs, jid, reconcile}
use domain_watcher.Dict
use domain_watcher.Notification.Idempotency.{
  memory_idempotency, memory_already_fired, memory_record, memory_fired-key, key,
}
use domain_watcher.Prelude.{
  true, zero, suc, ◌*◌, ◌<◌, length, all, ℕ, ◌+◌, ◌≤◌, ◌≡◌, refl, arith, false, List, [], ◌∷◌, some,
  ◌||◌, ◌&&◌, ltb, ◌==◌, list_eq, list_beq, nat_eq, pair_eq,
}
use domain_watcher.Tests.Data.{
  floats, retry_policy, site, watched, environment, fired_world, alert, mail, mail_id, day, week,
}

abbrev use_case : DispatchNotificationsUseCase floats environment memory_idempotency
use_case = record { notifiers = (b'n' ∷ [], b'n' ∷ []) ∷ []; retry_policy = retry_policy }

abbrev two_tasks : List Task
two_tasks =
    fresh floats environment memory_idempotency use_case alert mail
    ∷ fresh floats environment memory_idempotency use_case alert mail
    ∷ []

dispatch_at_most_example :
    let (us, v) =
      run floats environment memory_idempotency use_case
        (0 ∷ 1 ∷ 0 ∷ 1 ∷ [])
        (two_tasks, fired_world) in
    (dispatched (key_of alert mail) v.published + deliveries (key_of alert mail) two_tasks
      ≡ dispatched (key_of alert mail) [] + deliveries (key_of alert mail) us)
    × (dispatched (key_of alert mail) v.published
        ≤ dispatched (key_of alert mail) [] + pending (key_of alert mail) two_tasks)
dispatch_at_most_example =
    dispatch_at_most floats environment memory_idempotency use_case (key_of alert mail)
      (0 ∷ 1 ∷ 0 ∷ 1 ∷ []) two_tasks fired_world

dispatch_recorded_example :
    let (us, v) =
      run floats environment memory_idempotency use_case
        (0 ∷ 0 ∷ 1 ∷ [])
        (two_tasks, fired_world) in
    memory_idempotency.already_fired v.store (key_of alert mail) ≡ (
      memory_idempotency.already_fired [] (key_of alert mail)
      || ltb (dispatched (key_of alert mail) []) (dispatched (key_of alert mail) v.published))
dispatch_recorded_example =
    dispatch_recorded floats environment memory_idempotency use_case (key_of alert mail)
      (0 ∷ 0 ∷ 1 ∷ []) two_tasks fired_world

known : Dict.get use_case.notifiers mail.notifier_id ≡ some (b'n' ∷ [])
unfolding Dict.get list_beq
known = refl

not_fired : memory_idempotency.already_fired fired_world.store (key_of alert mail) ≡ false
unfolding memory_idempotency memory_already_fired Dict.get
not_fired = refl

fires_twice_example :
    dispatched
      (key_of alert mail)
      (run floats environment memory_idempotency use_case
        (0 ∷ 1 ∷ 0 ∷ 1 ∷ [])
        (two_tasks, fired_world)).1.published
    ≡ dispatched (key_of alert mail) [] + 2
fires_twice_example =
    fires_twice floats environment memory_idempotency use_case alert mail (b'n' ∷ []) known
      (omega arith) (λ e. refl) fired_world not_fired

memory_fired-key_example :
    memory_already_fired
      (memory_record (key site day alert.cycle_id mail_id) 5 [])
      (key site week alert.cycle_id mail_id)
    ≡ ((site.value == site.value
          && (day.seconds == week.seconds
              && (alert.cycle_id == alert.cycle_id && mail_id.value == mail_id.value)))
        || memory_already_fired [] (key site week alert.cycle_id mail_id))
memory_fired-key_example =
    memory_fired-key site site day week alert.cycle_id alert.cycle_id mail_id mail_id 5 []

abbrev old_jobs : Jobs ℕ
old_jobs = (jid site, (b'*' ∷ [], 1)) ∷ (b'x' ∷ [], (b'*' ∷ [], 2)) ∷ []

get-reconcile_example :
    Dict.get (reconcile (λ d. 3) (watched ∷ []) old_jobs) (jid site)
    ≡ settled (wanted (λ d. 3) (watched ∷ []) (jid site)) (Dict.get old_jobs (jid site))
get-reconcile_example = get-reconcile (λ d. 3) (watched ∷ []) old_jobs (jid site)

channels_for-Resolved_example :
    Resolved
      ((b'm' ∷ [], b'n' ∷ []) ∷ [])
      watched.channels
      (channels_for ((b'm' ∷ [], b'n' ∷ []) ∷ []) watched)
channels_for-Resolved_example = channels_for-Resolved ((b'm' ∷ [], b'n' ∷ []) ∷ []) watched

-- Each of the two tasks in turn, eight times.
abbrev rounds : List ℕ
rounds = 0 ∷ 1 ∷ 0 ∷ 1 ∷ 0 ∷ 1 ∷ 0 ∷ 1 ∷ 0 ∷ 1 ∷ 0 ∷ 1 ∷ 0 ∷ 1 ∷ 0 ∷ 1 ∷ []

enough_turns : (j : ℕ) → j < length two_tasks → 2 * 3 + 2 ≤ turns j rounds
unfolding turns
enough_turns zero h = omega arith
enough_turns (suc zero) h = omega arith
enough_turns (suc (suc j)) h = absurd (omega arith)

run-has_ended_example :
    all
      (λ t. has_ended t.phase)
      (run floats environment memory_idempotency use_case rounds (two_tasks, fired_world)).0
    ≡ true
run-has_ended_example =
    run-has_ended floats environment memory_idempotency use_case rounds two_tasks fired_world
      enough_turns
