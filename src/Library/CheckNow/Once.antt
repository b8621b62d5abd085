-- ===== src/Library/CheckNow/Once.antt =====
-- A key is dispatched by the jobs of one call at most.
use domain_watcher.Application.CheckDomain.{execute}
use domain_watcher.Application.Dispatch.Accounting.{run-TallyAll}
use domain_watcher.Application.Dispatch.Effects.{dispatched}
use domain_watcher.Application.Dispatch.Silent.{silent, tasks-silent, run-Unsent}
use domain_watcher.Application.Dispatch.{DispatchNotificationsUseCase, Task, plan, run}
use domain_watcher.Application.World.{Environment, World}
use domain_watcher.Checking.Retry.{Floats}
use domain_watcher.Checking.{CheckResult}
use domain_watcher.Library.CheckNow.Checked.{Kept, Kept-same, Kept-trans, execute-dispatched}
use domain_watcher.Library.CheckNow.{
  CheckServices, make_check_use_case, policy_for, make_dispatch_use_case, dispatch,
  dispatch_refreshed, check_and_dispatch, check_now, run_job, run_jobs,
}
use domain_watcher.Monitoring.Repository.{MonitoredDomainRepository}
use domain_watcher.Monitoring.{LastCheck, MonitoredDomain, no_items}
use domain_watcher.Notification.Idempotency.{Key, IdempotencyStore}
use domain_watcher.Notification.Policy.{NotificationPolicy, alerts_for}
use domain_watcher.Prelude.{
  ℕ, ◌≤◌, ◌<◌, ◌≡◌, refl, true, ◌||◌, Option, none, some, List, [], ◌∷◌, ltb, list_eq, nat_eq,
  pair_eq, arith, All, Bool-cases, Option-cases, inl, inr, ap,
}
use domain_watcher.Shared.DomainName.{DomainName}
use domain_watcher.Shared.Errors.{Result, Result-cases, ok, raise}
use domain_watcher.Shared.Exec.{continue}
use domain_watcher.Shared.Text.{Text}
use domain_watcher.Shared.Time.{Instant}

module _ (F : Floats) {E R S : Type 0} (env : Environment E) (repo : MonitoredDomainRepository R)
    (store : IdempotencyStore S) (sha256_hex : Instant → Text)
    (services : CheckServices F env repo store sha256_hex) (k : Key) where
  -- a plan writes and publishes nothing, and its tasks have not begun
  abbrev Planned : World E S → Result (List Task) × World E S → Type 0
  Planned w (ok ts, v) =
      All (λ t. silent k t ≡ true) ts × ((v.store ≡ w.store) × (v.published ≡ w.published))
  Planned w (raise x, v) = (v.store ≡ w.store) × (v.published ≡ w.published)

  plan-Planned :
      (policy : NotificationPolicy) (domain : MonitoredDomain) (previous : Option LastCheck)
      (current : CheckResult) (w : World E S)
      → Planned w (plan F env store sha256_hex services.resolver policy domain previous current w)
  unfolding plan
  plan-Planned policy domain previous current w =
      elim (Result-cases (alerts_for sha256_hex policy previous current (env.now w.env).0)) [
        | inr (x, e) ↦ rw e (refl, refl)
        | inl (alerts, e) ↦ rw e (elim (Bool-cases (no_items alerts)) [
          | inl nothing ↦ rw nothing (tt, (refl, refl))
          | inr something ↦ rw something (elim (Result-cases (services.resolver domain)) [
            | inl (channels, c) ↦ rw c (tasks-silent k alerts channels, (refl, refl))
            | inr (x, c) ↦ rw c (refl, refl)
          ])
        ])
      ]

  abbrev KeptIn : World E S → World E S → Type 0
  KeptIn w v =
      Kept (store.already_fired w.store k) (dispatched k w.published)
        (store.already_fired v.store k) (dispatched k v.published)

  KeptIn-same : (w v : World E S) → v.store ≡ w.store → v.published ≡ w.published → KeptIn w v
  KeptIn-same w v h p =
      Kept-same _ _ _ _ (ap (λ s. store.already_fired s k) h) (ap (dispatched k) p)

  abbrev dispatcher : DispatchNotificationsUseCase F env store
  dispatcher = make_dispatch_use_case F env repo store sha256_hex services

  run-Kept :
      (schedule : List ℕ) (ts : List Task) (w : World E S)
      → All (λ t. silent k t ≡ true) ts
      → KeptIn w (run F env store dispatcher schedule (ts, w)).1
  run-Kept schedule ts w h =
      let y = run-TallyAll F env store dispatcher k schedule ts w in
      record {
        grows = omega (arith, y.counted, y.grows);
        fired = y.fired;
        unsent = λ u. (run-Unsent F env store dispatcher k schedule ts w u h).unsent;
      }

  planned :
      (schedule : List ℕ) (r : Result (List Task)) (v w : World E S)
      → Planned w (r, v)
      → KeptIn w (continue r (λ ts u. (ok tt, (run F env store dispatcher schedule (ts, u)).1)) v).1
  planned schedule (ok ts) v w (h, (p, q)) = rw (← p, ← q) (run-Kept schedule ts v h)
  planned schedule (raise x) v w (p, q) = KeptIn-same w v p q

  dispatch_refreshed-Kept :
      (schedule : List ℕ) (refreshed : Option MonitoredDomain) (previous : Option LastCheck)
      (current : CheckResult) (w : World E S)
      → KeptIn w
          (dispatch_refreshed F env repo store sha256_hex services schedule refreshed previous
            current w).1
  unfolding dispatch_refreshed dispatch
  dispatch_refreshed-Kept schedule none previous current w = KeptIn-same w w refl refl
  dispatch_refreshed-Kept schedule (some refreshed) previous current w =
      elim (Result-cases
        (policy_for F env repo store sha256_hex services refreshed.notify_thresholds)) [
          | inl (policy, e) ↦
              rw e (planned schedule _ _ w (plan-Planned policy refreshed previous current w))
          | inr (x, e) ↦ rw e (KeptIn-same w w refl refl)
        ]

  abbrev KeptOver : World E (R × S) → World E (R × S) → Type 0
  KeptOver w v =
      Kept (store.already_fired w.store.1 k) (dispatched k w.published)
        (store.already_fired v.store.1 k) (dispatched k v.published)

  -- a coroutine's state is the same with another answer behind it
  answered :
      {A : Type 0} (a : A) (r : Result (Unit {0})) (w v : World E (R × S))
      → KeptOver w v
      → KeptOver w (continue r (λ u t. (ok a, t)) v).1
  answered a (ok u) w v h = h
  answered a (raise x) w v h = h

  check_and_dispatch-Kept :
      (schedule : List ℕ) (name : DomainName) (existing : MonitoredDomain) (w : World E (R × S))
      → 1 ≤ services.retry_policy.max_attempts
      → KeptOver w
          (check_and_dispatch F env repo store sha256_hex services schedule name existing w).1
  unfolding check_and_dispatch
  check_and_dispatch-Kept schedule name existing w h =
      let start : World E R = record { env = w.env; store = w.store.0; published = w.published } in
      let uc = make_check_use_case F env repo store sha256_hex services in
      let checked = execute F env repo uc name start in
      let first =
        Kept-same (store.already_fired w.store.1 k) (store.already_fired w.store.1 k)
          (dispatched k w.published) (dispatched k checked.1.published) refl
          (execute-dispatched F env repo k uc name start h) in
      elim (Result-cases checked.0) [
        | inl (result, e) ↦
            let middle : World E S = record {
              env = checked.1.env;
              store = w.store.1;
              published = checked.1.published;
            } in
            rw e (
              answered result _ w _ (
                Kept-trans _ _ _ _ _ _ first (
                  dispatch_refreshed-Kept schedule (repo.get checked.1.store name)
                    existing.last_check result middle)))
        | inr (x, e) ↦ rw e first
      ]

  run_job-Kept :
      (schedule : List ℕ) (name : DomainName) (w : World E (R × S))
      → 1 ≤ services.retry_policy.max_attempts
      → KeptOver w (run_job F env repo store sha256_hex services schedule name w)
  unfolding run_job
  run_job-Kept schedule name w h = elim (Option-cases (repo.get w.store.0 name)) [
    | inl absent ↦ rw (absent, run_job, check_now) (Kept-same _ _ _ _ refl refl)
    | inr (domain, there) ↦
        rw (there, run_job, check_now) (check_and_dispatch-Kept schedule name domain w h)
  ]

  run_jobs-Kept :
      (jobs : List (List ℕ × DomainName)) (w : World E (R × S))
      → 1 ≤ services.retry_policy.max_attempts
      → KeptOver w (run_jobs F env repo store sha256_hex services jobs w)
  unfolding run_jobs
  run_jobs-Kept [] w h = Kept-same _ _ _ _ refl refl
  run_jobs-Kept ((schedule, name) ∷ jobs) w h =
      Kept-trans _ _ _ _ _ _ (run_job-Kept schedule name w h)
        (run_jobs-Kept jobs (run_job F env repo store sha256_hex services schedule name w) h)

  -- By a retry policy that allows an attempt, a key that is dispatched in a job is not dispatched
  -- in any job that begins after it has ended, whatever domains these check, whatever the checkers
  -- and notifiers answer, and however the tasks of each dispatch are interleaved.
  pub run_jobs-once :
      (schedule : List ℕ) (name : DomainName) (jobs : List (List ℕ × DomainName))
      (w : World E (R × S))
      → 1 ≤ services.retry_policy.max_attempts
      → dispatched k w.published
        < dispatched k (run_job F env repo store sha256_hex services schedule name w).published
      → dispatched k
          (run_jobs F env repo store sha256_hex services ((schedule, name) ∷ jobs) w).published
        ≡ dispatched k (run_job F env repo store sha256_hex services schedule name w).published
  unfolding run_jobs
  run_jobs-once schedule name jobs w h grown =
      let y = run_job-Kept schedule name w h in
      (run_jobs-Kept jobs (run_job F env repo store sha256_hex services schedule name w) h).unsent
        (ground (arith, y.fired, grown))

  -- By such a policy, through any jobs the idempotency store holds a key in the end exactly if it
  -- held it before or the key has been dispatched in between.
  pub run_jobs-recorded :
      (jobs : List (List ℕ × DomainName)) (w : World E (R × S))
      → 1 ≤ services.retry_policy.max_attempts
      → let v = run_jobs F env repo store sha256_hex services jobs w in
        store.already_fired v.store.1 k ≡ (
          store.already_fired w.store.1 k
          || ltb (dispatched k w.published) (dispatched k v.published))
  run_jobs-recorded jobs w h = (run_jobs-Kept jobs w h).fired
