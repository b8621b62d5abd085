-- ===== src/Application/Dispatch/Duplicates.antt =====
-- Two tasks for one key: what happens where a domain lists a channel twice.
use domain_watcher.Application.Dispatch.Effects.{dispatched, dispatched-append}
use domain_watcher.Application.Dispatch.{
  start, sending, delivered, Task, key_of, DispatchNotificationsUseCase, loop_head, begin, succeed,
  send_once, step, step_at, run,
}
use domain_watcher.Application.Events.{notification_dispatched, make_event}
use domain_watcher.Application.World.{Environment, World}
use domain_watcher.Checking.Retry.{Floats}
use domain_watcher.Dict
use domain_watcher.Notification.Idempotency.{IdempotencyStore}
use domain_watcher.Notification.{Alert, Channel}
use domain_watcher.Prelude.{
  ◌+◌, ◌≤◌, ◌≡◌, ◌∙◌, false, some, [], ◌∷◌, le→leb, eq_refl, arith, list_eq, nat_eq, pair_eq,
}
use domain_watcher.Shared.Errors.{ok}
use domain_watcher.Shared.Text.{Text}

module _ (F : Floats) {E S : Type 0} (env : Environment E) (store : IdempotencyStore S)
    (uc : DispatchNotificationsUseCase F env store) (alert : Alert) (channel : Channel) where
  abbrev pub fresh : Task
  fresh = record { alert = alert; channel = channel; phase = start }

  module _ (notifier : Text) (known : Dict.get uc.notifiers channel.notifier_id ≡ some notifier)
      (allowed : 1 ≤ uc.retry_policy.max_attempts)
      (sends : (e : E) → (env.send channel.notifier_id alert channel e).0 ≡ ok tt) where
    begin-sending :
        (w : World E S)
        → store.already_fired w.store (key_of alert channel) ≡ false
        → begin F env store uc alert channel w ≡ (ok (sending 1), w)
    unfolding begin loop_head
    begin-sending w new = rw (new, known, le→leb 1 uc.retry_policy.max_attempts allowed)

    send_once-delivered :
        (w : World E S)
        → (v : World E S) × (send_once F env store uc alert channel 1 w ≡ (ok delivered, v))
          × (dispatched (key_of alert channel) v.published
              ≡ dispatched (key_of alert channel) w.published + 1)
    unfolding send_once succeed make_event
    send_once-delivered w =
        let sent_env = record w { env = (env.send channel.notifier_id alert channel w.env).1 } in
        let v = (succeed F env store uc alert channel sent_env).1 in
        (
          v,
          rw (sends w.env),
          dispatched-append (key_of alert channel) w.published
                (notification_dispatched _ alert channel.id)
              ∙ rw (eq_refl (key_of alert channel)),
        )

    -- Two tasks with the same alert and channel, both looked up before either has sent, dispatch the
    -- alert twice, where its key has not been fired, the notifier is known, the policy allows an
    -- attempt and every send succeeds.
    pub fires_twice :
        (w : World E S)
        → store.already_fired w.store (key_of alert channel) ≡ false
        → dispatched
            (key_of alert channel)
            (run F env store uc (0 ∷ 1 ∷ 0 ∷ 1 ∷ []) (fresh ∷ fresh ∷ [], w)).1.published
          ≡ dispatched (key_of alert channel) w.published + 2
    unfolding run step_at step
    fires_twice w new =
        let (v, once, one) = send_once-delivered w in
        let (u, again, two) = send_once-delivered v in
        rw (begin-sending w new, begin-sending w new, once, again) (omega (arith, one, two))
