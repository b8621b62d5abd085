-- ===== src/Application/Dispatch/Effects.antt =====
-- What one step of a delivery task publishes and records.
use domain_watcher.Application.Dispatch.{
  Phase, start, sending, waiting, delivered, skipped, failed, Task, key_of,
  DispatchNotificationsUseCase, loop_head, fail, begin, succeed, on_send_error, send_once,
  sleep_once, step, land,
}
use domain_watcher.Application.Events.{
  Event, notification_dispatched, notification_failed, make_event,
}
use domain_watcher.Application.World.{Environment, World}
use domain_watcher.Checking.Retry.{Floats, delay_for}
use domain_watcher.Dict
use domain_watcher.Notification.Idempotency.{Key, key, IdempotencyStore}
use domain_watcher.Notification.{Alert, Channel}
use domain_watcher.Prelude.{
  ℕ, suc, ◌+◌, ◌≡◌, refl, ◌∙◌, ap, Bool, true, false, ◌&&◌, ◌||◌, List, [], ◌∷◌, ◌++◌, ltb,
  if◌then◌else◌, list_eq, nat_eq, pair_eq, arith, ◌==◌, Bool-cases, Option-cases, inl, inr,
}
use domain_watcher.Shared.Errors.{
  Error, Result, Result-cases, ok, raise, value_error, delivery_failed_error, notification_error,
}
use domain_watcher.Shared.Text.{Text, is_empty}
use domain_watcher.Shared.Time.{Instant}

abbrev pub is_pending : Phase → Bool
is_pending start = true
is_pending (sending _) = true
is_pending (waiting _) = true
is_pending _ = false

abbrev pub is_delivered : Phase → Bool
is_delivered delivered = true
is_delivered _ = false

abbrev pub dispatched_key : Key → Event → Bool
dispatched_key k (notification_dispatched _ alert channel) =
    key alert.domain alert.threshold alert.cycle_id channel == k
dispatched_key k _ = false

abbrev pub one_if : Bool → ℕ
one_if b = if b then 1 else 0

-- how many `NotificationDispatched` events with this key have been published
unfoldable pub dispatched : Key → List Event → ℕ
dispatched k [] = 0
dispatched k (e ∷ es) = one_if (dispatched_key k e) + dispatched k es

pub dispatched-append :
    (k : Key) (es : List Event) (e : Event)
    → dispatched k (es ++ (e ∷ [])) ≡ dispatched k es + one_if (dispatched_key k e)
unfolding dispatched
dispatched-append k [] e = omega arith
dispatched-append k (x ∷ es) e = omega (arith, dispatched-append k es e)

-- how many tasks with this key are under way, and how many have delivered
unfoldable pub pending : Key → List Task → ℕ
pending k [] = 0
pending k (t ∷ ts) = one_if (is_pending t.phase && key_of t.alert t.channel == k) + pending k ts

unfoldable pub deliveries : Key → List Task → ℕ
deliveries k [] = 0
deliveries k (t ∷ ts) =
    one_if (is_delivered t.phase && key_of t.alert t.channel == k) + deliveries k ts

module _ (F : Floats) {E S : Type 0} (env : Environment E) (store : IdempotencyStore S) where
  -- What one step of a task has done: it was at its end, it delivered, or it did neither.
  pub data Effect (alert : Alert) (channel : Channel) (w : World E S)
      : Phase → Result Phase → World E S → Type 0 where
    ended : {p : Phase} → is_pending p ≡ false → Effect alert channel w p (ok p) w
    quiet :
        {p : Phase} (r : Result Phase) {v : World E S}
        → is_pending p ≡ true
        → is_delivered (land r) ≡ false
        → v.store ≡ w.store
        → ((k : Key) → dispatched k v.published ≡ dispatched k w.published)
        → Effect alert channel w p r v
    sent :
        {p : Phase} {v : World E S} (at now : Instant)
        → is_pending p ≡ true
        → v.store ≡ store.add (key_of alert channel) at w.store
        → v.published ≡ w.published ++ (notification_dispatched now alert channel.id ∷ [])
        → Effect alert channel w p (ok delivered) v

  module _ (uc : DispatchNotificationsUseCase F env store) (alert : Alert) (channel : Channel) where
    abbrev pub EffectOf : World E S → Phase → Result Phase × World E S → Type 0
    EffectOf w p (r, v) = Effect alert channel w p r v

    dispatched-failed :
        (w : World E S) (at : Instant) (reason : Text) (n : ℕ) (k : Key)
        → dispatched k (w.published ++ (notification_failed at alert channel.id reason n ∷ []))
          ≡ dispatched k w.published
    dispatched-failed w at reason n k =
        omega (
          arith,
          dispatched-append k w.published (notification_failed at alert channel.id reason n),
        )

    fail-Effect :
        (p : Phase) (reason : Text) (attempts : ℕ) (w u : World E S)
        → is_pending p ≡ true
        → u.store ≡ w.store
        → u.published ≡ w.published
        → EffectOf w p (fail F env store uc alert channel reason attempts u)
    unfolding fail make_event
    fail-Effect p reason attempts w u h q r =
        elim (Bool-cases (is_empty reason || ltb attempts 1)) [
          | inl bad ↦ rw bad (quiet (raise value_error) h refl q (λ k. ap (dispatched k) r))
          | inr good ↦ rw good (
              quiet (ok failed) h refl q
                (λ k. dispatched-failed u _ reason attempts k ∙ ap (dispatched k) r))
        ]

    loop_head-is_delivered : (n : ℕ) → is_delivered (loop_head F env store uc n) ≡ false
    unfolding loop_head
    loop_head-is_delivered n = ground arith

    begin-Effect : (w : World E S) → EffectOf w start (begin F env store uc alert channel w)
    unfolding begin
    begin-Effect w = elim (Bool-cases (store.already_fired w.store (key_of alert channel))) [
      | inl old ↦ rw old (quiet (ok skipped) refl refl refl (λ k. refl))
      | inr new ↦ rw new (elim (Option-cases (Dict.get uc.notifiers channel.notifier_id)) [
        | inl unknown ↦ rw unknown (fail-Effect start _ 1 w w refl refl refl)
        | inr (n, known) ↦ rw known (quiet _ refl (loop_head-is_delivered 1) refl (λ k. refl))
      ])
    ]

    on_send_error-Effect :
        (attempt : ℕ) (e : Error) (w u : World E S)
        → u.store ≡ w.store
        → u.published ≡ w.published
        → EffectOf w (sending attempt) (on_send_error F env store uc alert channel attempt e u)
    unfolding on_send_error
    on_send_error-Effect attempt (delivery_failed_error m) w u q r =
        elim (Bool-cases (ltb attempt uc.retry_policy.max_attempts)) [
          | inl more ↦ rw more (quiet (ok (waiting attempt)) refl refl q (λ k. ap (dispatched k) r))
          | inr last ↦ rw last (fail-Effect (sending attempt) _ attempt w u refl q r)
        ]
    on_send_error-Effect attempt (notification_error m) w u q r =
        fail-Effect (sending attempt) _ attempt w u refl q r
    on_send_error-Effect attempt e w u q r = quiet (raise _) refl refl q (λ k. ap (dispatched k) r)

    send_once-Effect :
        (attempt : ℕ) (w : World E S)
        → EffectOf w (sending attempt) (send_once F env store uc alert channel attempt w)
    unfolding send_once succeed make_event
    send_once-Effect attempt w =
        elim (Result-cases (env.send channel.notifier_id alert channel w.env).0) [
          | inl (a, e) ↦ rw e (sent _ _ refl refl refl)
          | inr (error, e) ↦ rw e (on_send_error-Effect attempt error w _ refl refl)
        ]

    sleep_once-Effect :
        (attempt : ℕ) (w : World E S)
        → EffectOf w (waiting attempt) (sleep_once F env store uc attempt w)
    unfolding sleep_once
    sleep_once-Effect attempt w = elim (Result-cases (delay_for F uc.retry_policy attempt)) [
      | inl (d, e) ↦ rw e (quiet _ refl (loop_head-is_delivered (suc attempt)) refl (λ k. refl))
      | inr (error, e) ↦ rw e (quiet (raise error) refl refl refl (λ k. refl))
    ]

    pub step-Effect :
        (p : Phase) (w : World E S) → EffectOf w p (step F env store uc alert channel p w)
    unfolding step
    step-Effect start w = begin-Effect w
    step-Effect (sending attempt) w = send_once-Effect attempt w
    step-Effect (waiting attempt) w = sleep_once-Effect attempt w
    step-Effect _ w = ended refl
