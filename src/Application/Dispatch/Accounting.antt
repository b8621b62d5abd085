-- ===== src/Application/Dispatch/Accounting.antt =====
-- What the tasks of a dispatch publish and record, under every schedule.
use domain_watcher.Application.Dispatch.Effects.{
  is_pending, is_delivered, one_if, dispatched, dispatched-append, pending, deliveries, Effect,
  ended, quiet, sent, step-Effect,
}
use domain_watcher.Application.Dispatch.{
  Phase, start, sending, waiting, delivered, Task, key_of, DispatchNotificationsUseCase, land,
  step_at, run,
}
use domain_watcher.Application.World.{Environment, World}
use domain_watcher.Checking.Retry.{Floats}
use domain_watcher.Notification.Idempotency.{Key, IdempotencyStore}
use domain_watcher.Notification.{Alert, Channel}
use domain_watcher.Prelude.{
  ℕ, zero, suc, ◌+◌, ◌≤◌, ◌≡◌, refl, Bool, true, false, ◌&&◌, ◌||◌, List, [], ◌∷◌, ltb, list_eq,
  nat_eq, pair_eq, arith, ◌==◌,
}
use native.Mathlib.Nat.{le_trans}
use domain_watcher.Shared.Errors.{Result}

module _ (F : Floats) {E S : Type 0} (env : Environment E) (store : IdempotencyStore S) where
  -- A step of one task moves the counts together, and fires a key exactly when it delivers.
  pub record Tally (k : Key) (key_hit : Bool) (p q : Phase) (w v : World E S) : Type 0 where
    pub counted :
        dispatched k v.published + one_if (is_delivered p && key_hit)
        ≡ dispatched k w.published + one_if (is_delivered q && key_hit)
    pub grows : one_if (is_delivered p && key_hit) ≤ one_if (is_delivered q && key_hit)
    pub budget :
        one_if (is_delivered q && key_hit) + one_if (is_pending q && key_hit)
        ≤ one_if (is_delivered p && key_hit) + one_if (is_pending p && key_hit)
    pub fired : store.already_fired v.store k ≡ (
        store.already_fired w.store k || ltb (dispatched k w.published) (dispatched k v.published))

  phase_budget :
      (p : Phase) (b : Bool) → one_if (is_delivered p && b) + one_if (is_pending p && b) ≤ one_if b
  phase_budget start b = ground arith
  phase_budget (sending n) b = ground arith
  phase_budget (waiting n) b = ground arith
  phase_budget delivered b = ground arith
  phase_budget _ b = ground arith

  pending-is_delivered : (p : Phase) → is_pending p ≡ true → is_delivered p ≡ false
  pending-is_delivered delivered h = ground arith
  pending-is_delivered _ h = refl

  same_count : (a : Bool) (n m : ℕ) → n ≡ m → a ≡ (a || ltb m n)
  same_count a n m h = ground arith

  quiet_budget :
      (p q : Phase) (b : Bool)
      → is_pending p ≡ true
      → one_if (is_delivered q && b) + one_if (is_pending q && b)
        ≤ one_if (is_delivered p && b) + one_if (is_pending p && b)
  quiet_budget p q b h =
      rw (h, pending-is_delivered p h) (le_trans (phase_budget q b) (omega arith))

  sent_fired : (a b : Bool) (n m : ℕ) → m ≡ n + one_if b → (b || a) ≡ (a || ltb n m)
  sent_fired a true n m h = ground arith
  sent_fired a false n m h = ground arith

  pub Effect-Tally :
      (k : Key) (b : Bool) {alert : Alert} {channel : Channel} {w : World E S} {p : Phase}
      {r : Result Phase} {v : World E S}
      → (key_of alert channel == k) ≡ b
      → Effect F env store alert channel w p r v
      → Tally k b p (land r) w v
  Effect-Tally k b {w = w} hit (ended {p} h) = record {
    counted = refl;
    grows = omega arith;
    budget = omega arith;
    fired = same_count _ (dispatched k w.published) (dispatched k w.published) refl;
  }
  Effect-Tally k b {w = w} {v = v} hit (quiet {p} r h n q s) = record {
    counted = rw (s k, n, pending-is_delivered p h) refl;
    grows = rw (pending-is_delivered p h) (omega arith);
    budget = quiet_budget p (land r) b h;
    fired = rw (q) (same_count _ (dispatched k v.published) (dispatched k w.published) (s k));
  }
  Effect-Tally k b {w = w} {v = v} hit (sent {p} at now h q s) =
      let counts : dispatched k v.published ≡ dispatched k w.published + one_if b =
        rw (s, dispatched-append k, hit) refl in
      record {
        counted = rw (counts, pending-is_delivered p h) (omega arith);
        grows = rw (pending-is_delivered p h) (omega arith);
        budget = quiet_budget p delivered b h;
        fired =
            rw (q, store.fired-add, hit)
              (sent_fired _ b (dispatched k w.published) (dispatched k v.published) counts);
      }

  -- The same over all tasks, for one step and for a schedule.
  pub record TallyAll (k : Key) (ts us : List Task) (w v : World E S) : Type 0 where
    pub counted :
        dispatched k v.published + deliveries k ts ≡ dispatched k w.published + deliveries k us
    pub grows : deliveries k ts ≤ deliveries k us
    pub budget : deliveries k us + pending k us ≤ deliveries k ts + pending k ts
    pub fired : store.already_fired v.store k ≡ (
        store.already_fired w.store k || ltb (dispatched k w.published) (dispatched k v.published))

  no_step : (k : Key) (ts : List Task) (w : World E S) → TallyAll k ts ts w w
  no_step k ts w = record {
    counted = refl;
    grows = omega arith;
    budget = omega arith;
    fired = same_count _ (dispatched k w.published) (dispatched k w.published) refl;
  }

  fired_chain :
      (a b c : Bool) (l m n : ℕ)
      → l ≤ m
      → m ≤ n
      → b ≡ (a || ltb l m)
      → c ≡ (b || ltb m n)
      → c ≡ (a || ltb l n)
  fired_chain a b c l m n h k p q = ground arith

  module _ (uc : DispatchNotificationsUseCase F env store) (k : Key) where
    abbrev pub TallyOf : List Task → World E S → List Task × World E S → Type 0
    TallyOf ts w (us, v) = TallyAll k ts us w v

    step_at-TallyAll :
        (i : ℕ) (ts : List Task) (w : World E S) → TallyOf ts w (step_at F env store uc i ts w)
    unfolding step_at deliveries pending
    step_at-TallyAll i [] w = no_step k [] w
    step_at-TallyAll zero (t ∷ ts) w =
        let y =
          Effect-Tally k (key_of t.alert t.channel == k) refl
            (step-Effect F env store uc t.alert t.channel t.phase w) in
        record {
          counted = omega (arith, y.counted);
          grows = omega (arith, y.grows);
          budget = omega (arith, y.budget);
          fired = y.fired;
        }
    step_at-TallyAll (suc i) (t ∷ ts) w =
        let y = step_at-TallyAll i ts w in
        record {
          counted = omega (arith, y.counted);
          grows = omega (arith, y.grows);
          budget = omega (arith, y.budget);
          fired = y.fired;
        }

    pub run-TallyAll :
        (schedule : List ℕ) (ts : List Task) (w : World E S)
        → TallyOf ts w (run F env store uc schedule (ts, w))
    unfolding run
    run-TallyAll [] ts w = no_step k ts w
    run-TallyAll (i ∷ schedule) ts w =
        let (us, v) = step_at F env store uc i ts w in
        let y = step_at-TallyAll i ts w in
        let z = run-TallyAll schedule us v in
        record {
          counted = omega (arith, y.counted, z.counted);
          grows = omega (arith, y.grows, z.grows);
          budget = omega (arith, y.budget, z.budget);
          fired =
              fired_chain _ _ _ _ _ _ (omega (arith, y.counted, y.grows))
                (omega (arith, z.counted, z.grows)) y.fired z.fired;
        }

    -- Whatever the schedule, the dispatches of a key are exactly the tasks that delivered, and there
    -- are no more of them than tasks with that key that had not ended.
    pub dispatch_at_most :
        (schedule : List ℕ) (ts : List Task) (w : World E S)
        → let (us, v) = run F env store uc schedule (ts, w) in
          (dispatched k v.published + deliveries k ts ≡ dispatched k w.published + deliveries k us)
          × (dispatched k v.published ≤ dispatched k w.published + pending k ts)
    dispatch_at_most schedule ts w =
        let y = run-TallyAll schedule ts w in
        (y.counted, omega (arith, y.counted, y.budget, y.grows))

    -- Whatever the schedule, a key is recorded as fired in the end exactly if it was before or has
    -- been dispatched.
    pub dispatch_recorded :
        (schedule : List ℕ) (ts : List Task) (w : World E S)
        → let (us, v) = run F env store uc schedule (ts, w) in
          store.already_fired v.store k ≡ (
            store.already_fired w.store k
            || ltb (dispatched k w.published) (dispatched k v.published))
    dispatch_recorded schedule ts w = (run-TallyAll schedule ts w).fired
