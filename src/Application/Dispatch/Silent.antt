-- ===== src/Application/Dispatch/Silent.antt =====
-- A key that is recorded as fired is not dispatched by tasks that have not looked it up yet.
use domain_watcher.Application.Dispatch.Accounting.{Effect-Tally}
use domain_watcher.Application.Dispatch.Effects.{dispatched, step-Effect}
use domain_watcher.Application.Dispatch.{
  Phase, start, sending, waiting, delivered, skipped, failed, crashed, Task, key_of,
  DispatchNotificationsUseCase, land, tasks_for, tasks, begin, step, step_at, run,
}
use domain_watcher.Application.World.{Environment, World}
use domain_watcher.Checking.Retry.{Floats}
use domain_watcher.Notification.Idempotency.{Key, IdempotencyStore}
use domain_watcher.Notification.{Alert, Channel}
use domain_watcher.Prelude.{
  ℕ, zero, suc, ◌≡◌, refl, Bool, true, false, not, ◌||◌, List, [], ◌∷◌, ◌++◌, list_eq, nat_eq,
  pair_eq, arith, ◌==◌, All, Bool-cases, inl, inr, eq_iff, ◌∙◌,
}
use domain_watcher.Shared.Errors.{Result}

-- a phase in which the next step does not send
abbrev idle : Phase → Bool
idle (sending attempt) = false
idle (waiting attempt) = false
idle p = true

-- a task with another key, or in such a phase
abbrev pub silent : Key → Task → Bool
silent k t = not (key_of t.alert t.channel == k) || idle t.phase

pub tasks_for-silent :
    (k : Key) (alert : Alert) (channels : List Channel) (ts : List Task)
    → All (λ t. silent k t ≡ true) ts
    → All (λ t. silent k t ≡ true) (tasks_for alert channels ++ ts)
unfolding tasks_for
tasks_for-silent k alert [] ts h = h
tasks_for-silent k alert (c ∷ cs) ts h = (ground arith, tasks_for-silent k alert cs ts h)

pub tasks-silent :
    (k : Key) (alerts : List Alert) (channels : List Channel)
    → All (λ t. silent k t ≡ true) (tasks alerts channels)
unfolding tasks
tasks-silent k [] channels = tt
tasks-silent k (a ∷ as') channels =
    tasks_for-silent k a channels (tasks as' channels) (tasks-silent k as' channels)

module _ (F : Floats) {E S : Type 0} (env : Environment E) (store : IdempotencyStore S)
    (uc : DispatchNotificationsUseCase F env store) (k : Key) where
  -- a key that stays as it was, and fired
  pub record Unsent (w v : World E S) : Type 0 where
    pub unsent : dispatched k v.published ≡ dispatched k w.published
    pub kept : store.already_fired v.store k ≡ true

  abbrev Stays : World E S → Result Phase × World E S → Type 0
  Stays w (r, v) = Unsent w v × (idle (land r) ≡ true)

  idle-Stays :
      (alert : Alert) (channel : Channel) (p : Phase) (w : World E S)
      → store.already_fired w.store (key_of alert channel) ≡ true
      → store.already_fired w.store k ≡ true
      → idle p ≡ true
      → Stays w (step F env store uc alert channel p w)
  unfolding step begin
  idle-Stays alert channel start w there h q = rw there (record { unsent = refl; kept = h }, refl)
  idle-Stays alert channel (sending n) w there h q = absurd (ground arith)
  idle-Stays alert channel (waiting n) w there h q = absurd (ground arith)
  idle-Stays alert channel delivered w there h q = (record { unsent = refl; kept = h }, refl)
  idle-Stays alert channel skipped w there h q = (record { unsent = refl; kept = h }, refl)
  idle-Stays alert channel failed w there h q = (record { unsent = refl; kept = h }, refl)
  idle-Stays alert channel crashed w there h q = (record { unsent = refl; kept = h }, refl)

  step-Unsent :
      (alert : Alert) (channel : Channel) (p : Phase) (w : World E S)
      → store.already_fired w.store k ≡ true
      → silent k (record { alert = alert; channel = channel; phase = p }) ≡ true
      → Unsent w (step F env store uc alert channel p w).1
        × (silent k (record {
          alert = alert;
          channel = channel;
          phase = land (step F env store uc alert channel p w).0;
        })
            ≡ true)
  step-Unsent alert channel p w h q = elim (Bool-cases (key_of alert channel == k)) [
    | inl hit ↦
        let same = (eq_iff (key_of alert channel) k).0 hit in
        let (y, z) = idle-Stays alert channel p w (rw same h) h (ground (arith, q, hit)) in
        (y, ground (arith, z))
    | inr miss ↦
        let y =
          Effect-Tally F env store k false miss (step-Effect F env store uc alert channel p w) in
        (record { unsent = ground (arith, y.counted); kept = rw (y.fired, h) refl }, rw miss refl)
  ]

  step_at-Unsent :
      (i : ℕ) (ts : List Task) (w : World E S)
      → store.already_fired w.store k ≡ true
      → All (λ t. silent k t ≡ true) ts
      → Unsent w (step_at F env store uc i ts w).1
        × All (λ t. silent k t ≡ true) (step_at F env store uc i ts w).0
  unfolding step_at
  step_at-Unsent i [] w h q = (record { unsent = refl; kept = h }, tt)
  step_at-Unsent zero (t ∷ ts) w h (q, qs) =
      let (y, z) = step-Unsent t.alert t.channel t.phase w h q in (y, (z, qs))
  step_at-Unsent (suc i) (t ∷ ts) w h (q, qs) =
      let (y, z) = step_at-Unsent i ts w h qs in (y, (q, z))

  -- While such tasks run, a key that is recorded stays recorded, and is not dispatched.
  pub run-Unsent :
      (schedule : List ℕ) (ts : List Task) (w : World E S)
      → store.already_fired w.store k ≡ true
      → All (λ t. silent k t ≡ true) ts
      → Unsent w (run F env store uc schedule (ts, w)).1
  unfolding run
  run-Unsent [] ts w h q = record { unsent = refl; kept = h }
  run-Unsent (i ∷ schedule) ts w h q =
      let (y, z) = step_at-Unsent i ts w h q in
      let rest =
        run-Unsent schedule (step_at F env store uc i ts w).0 (step_at F env store uc i ts w).1
          y.kept z in
      record { unsent = rest.unsent ∙ y.unsent; kept = rest.kept }
