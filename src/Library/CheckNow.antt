-- ===== src/Library/CheckNow.antt =====
-- `DomainWatcher.check_now` of interfaces/library/api.py, and the job that the façade schedules for
-- a domain. The idempotency store is the second part of the state. Nothing else runs between the
-- places where a call can be suspended, save for the tasks of its own dispatch.
pub mod Checked
pub mod Once
use domain_watcher.Application.CheckDomain.{CheckDomainUseCase, execute}
use domain_watcher.Application.Dispatch.{DispatchNotificationsUseCase, plan, run}
use domain_watcher.Application.World.{Environment, World}
use domain_watcher.Checking.Retry.{Floats, RetryPolicy}
use domain_watcher.Checking.{CheckResult}
use domain_watcher.Dict.{Dict}
use domain_watcher.Monitoring.Repository.{MonitoredDomainRepository}
use domain_watcher.Monitoring.{LastCheck, MonitoredDomain}
use domain_watcher.Notification.Idempotency.{IdempotencyStore}
use domain_watcher.Notification.Policy.{NotificationPolicy, make}
use domain_watcher.Notification.{Channel}
use domain_watcher.Prelude.{
  ℕ, Bool, Option, none, some, List, [], ◌∷◌, ◌==◌, list_eq, nat_eq, map, if◌then◌else◌,
}
use domain_watcher.Shared.DomainName.{DomainName}
use domain_watcher.Shared.Duration.{Duration}
use domain_watcher.Shared.Errors.{Result, ok, raise, domain_not_monitored_error}
use domain_watcher.Shared.Exec.{Exec, pure, lift, continue, ◌>>=◌, ◌>>◌}
use domain_watcher.Shared.Text.{Text}
use domain_watcher.Shared.Time.{Instant}

-- `thresholds == self.notification_policy.thresholds`
abbrev pub same_thresholds : List Duration → List Duration → Bool
same_thresholds a b = map (λ d. d.seconds) a == map (λ d. d.seconds) b

module _ {E R S : Type 0} where
  -- a coroutine that changes the repository alone
  abbrev pub on_repo : {A : Type 0} → Exec (World E R) A → Exec (World E (R × S)) A
  on_repo m w =
      let (r, v) = m (record { env = w.env; store = w.store.0; published = w.published }) in
      (r, record { env = v.env; store = (v.store, w.store.1); published = v.published })

  -- one that changes the idempotency store alone
  abbrev pub on_store : {A : Type 0} → Exec (World E S) A → Exec (World E (R × S)) A
  on_store m w =
      let (r, v) = m (record { env = w.env; store = w.store.1; published = w.published }) in
      (r, record { env = v.env; store = (w.store.0, v.store); published = v.published })

module _ (F : Floats) {E R S : Type 0} (env : Environment E) (repo : MonitoredDomainRepository R)
    (store : IdempotencyStore S) (sha256_hex : Instant → Text) where
  -- What `check_now` reads of the façade; `checkers` and `notifiers` are `_checker_dict()` and
  -- `_notifier_dict()`.
  pub record CheckServices : Type 0 where
    pub checkers : Dict Text Text
    pub notifiers : Dict Text Text
    pub retry_policy : RetryPolicy F
    pub notification_policy : NotificationPolicy
    pub resolver : MonitoredDomain → Result (List Channel)

  module _ (services : CheckServices) where
    abbrev pub make_check_use_case : CheckDomainUseCase F env repo
    make_check_use_case = record {
      checkers = services.checkers;
      retry_policy = services.retry_policy;
    }

    -- the policy of `_make_dispatch_use_case`
    unfoldable pub policy_for : List Duration → Result NotificationPolicy
    policy_for thresholds =
        if same_thresholds thresholds services.notification_policy.thresholds
        then ok services.notification_policy
        else make thresholds

    abbrev pub make_dispatch_use_case : DispatchNotificationsUseCase F env store
    make_dispatch_use_case = record {
      notifiers = services.notifiers;
      retry_policy = services.retry_policy;
    }

    -- `DispatchNotificationsUseCase.execute`, whose tasks run by this schedule
    unfoldable pub dispatch :
        List ℕ
        → NotificationPolicy
        → MonitoredDomain
        → Option LastCheck
        → CheckResult
        → Exec (World E S) (Unit {0})
    dispatch schedule policy domain previous current = do
      ts ← plan F env store sha256_hex services.resolver policy domain previous current
      λ w. (ok tt, (run F env store make_dispatch_use_case schedule (ts, w)).1)

    -- the part for a domain that is still there after the check
    unfoldable pub dispatch_refreshed :
        List ℕ
        → Option MonitoredDomain
        → Option LastCheck
        → CheckResult
        → Exec (World E S) (Unit {0})
    unfolding policy_for dispatch
    dispatch_refreshed schedule none previous current = pure tt
    dispatch_refreshed schedule (some refreshed) previous current = do
      policy ← lift (policy_for refreshed.notify_thresholds)
      dispatch schedule policy refreshed previous current

    unfoldable pub check_and_dispatch :
        List ℕ → DomainName → MonitoredDomain → Exec (World E (R × S)) CheckResult
    unfolding dispatch_refreshed
    check_and_dispatch schedule name existing = do
      result ← on_repo (execute F env repo make_check_use_case name)
      λ w.
          on_store
            (dispatch_refreshed schedule (repo.get w.store.0 name) existing.last_check result) w
      pure result

    unfoldable pub check_now : List ℕ → DomainName → Exec (World E (R × S)) CheckResult
    unfolding check_and_dispatch
    check_now schedule name w = elim (repo.get w.store.0 name) [
      | none ↦ (raise domain_not_monitored_error, w)
      | some existing ↦ check_and_dispatch schedule name existing w
    ]

    -- `_run` of `_make_job_callable`, which drops what `check_now` raises
    unfoldable pub run_job : List ℕ → DomainName → World E (R × S) → World E (R × S)
    unfolding check_now
    run_job schedule name w = (check_now schedule name w).1

    -- jobs that run one after the other
    unfoldable pub run_jobs : List (List ℕ × DomainName) → World E (R × S) → World E (R × S)
    unfolding run_job
    run_jobs [] w = w
    run_jobs ((schedule, name) ∷ jobs) w = run_jobs jobs (run_job schedule name w)
