-- ===== src/Application/CheckDomain.antt =====
-- `CheckDomainUseCase` of application/use_cases/check_domain.py.
pub mod Endings
pub mod Outcomes
pub mod Attempts
use domain_watcher.Application.Events.{
  Event, domain_check_completed, domain_check_failed, make_event,
}
use domain_watcher.Application.World.{Environment, World, outside, outside_raising, write, publish}
use domain_watcher.Checking.Retry.{Floats, RetryPolicy, delay_for}
use domain_watcher.Checking.{CheckOutcome, CheckResult}
use domain_watcher.Dict
use domain_watcher.Dict.{Dict}
use domain_watcher.Monitoring.Repository.{MonitoredDomainRepository}
use domain_watcher.Monitoring.{MonitoredDomain, with_check_result}
use domain_watcher.Prelude.{
  ℕ, zero, suc, Bool, true, false, Option, none, some, ltb, if◌then◌else◌, list_eq, nat_eq,
}
use domain_watcher.Shared.DomainName.{DomainName}
use domain_watcher.Shared.Errors.{
  Error, Result, ok, raise, runtime_error, transient_check_error, permanent_check_error,
  domain_not_monitored_error, checker_not_registered_error,
}
use domain_watcher.Shared.Exec.{Exec, pure, throw, lift, try, continue, settle, ◌>>=◌, ◌>>◌}
use domain_watcher.Shared.Text.{Text, lit, or_else}

abbrev pub text_or : Option Text → Text → Text
text_or none d = d
text_or (some m) d = or_else m d

module _ (F : Floats) {E R : Type 0} (env : Environment E)
    (repo : MonitoredDomainRepository R) where
  -- `checkers` has each checker's own `id` under the key that it is registered by.
  pub record CheckDomainUseCase : Type 0 where
    pub checkers : Dict Text Text
    pub retry_policy : RetryPolicy F

  module _ (uc : CheckDomainUseCase) where
    -- `_wait`
    unfoldable pub wait : ℕ → Exec (World E R) (Unit {0})
    wait attempt = do
      delay ← lift (delay_for F uc.retry_policy attempt)
      outside (λ e. (tt, env.sleep delay.seconds e))

    -- `_emit_failed`
    unfoldable pub emit_failed : DomainName → Text → Text → Bool → Exec (World E R) (Unit {0})
    unfolding make_event
    emit_failed name source reason transient = do
      now ← outside env.now
      publish (domain_check_failed now name source reason transient)

    -- another attempt if one is left, and else `stop`
    unfoldable pub retry_or :
        {A : Type 0} → ℕ → Exec (World E R) A → Exec (World E R) A → Exec (World E R) A
    unfolding wait
    retry_or attempt again stop =
        if ltb attempt uc.retry_policy.max_attempts then wait attempt >> again else stop

    -- the branch `# OK`
    unfoldable pub complete : MonitoredDomain → CheckResult → Exec (World E R) CheckResult
    unfolding make_event
    complete domain result = do
      at ← outside env.now
      new_domain ← lift (with_check_result domain result at)
      write (repo.update new_domain)
      now ← outside env.now
      publish (domain_check_completed now result)
      pure result

    -- the tests on `result.outcome`; `again` is the rest of the loop
    unfoldable pub on_outcome :
        CheckOutcome
        → MonitoredDomain
        → Text
        → ℕ
        → Exec (World E R) CheckResult
        → CheckResult
        → Exec (World E R) CheckResult
    unfolding retry_or emit_failed complete
    on_outcome CheckOutcome.transient_error domain checker attempt again result =
        retry_or attempt again (
          emit_failed domain.name checker (text_or result.error (lit "transient_error")) true
          >> pure result)
    on_outcome CheckOutcome.permanent_error domain checker attempt again result =
        emit_failed domain.name checker (text_or result.error (lit "permanent_error")) false
        >> pure result
    on_outcome CheckOutcome.ok domain checker attempt again result = complete domain result

    -- the part of a round behind `checker.check(name)`
    unfoldable pub on_result :
        MonitoredDomain
        → Text
        → ℕ
        → (CheckResult → Exec (World E R) CheckResult)
        → CheckResult
        → Exec (World E R) CheckResult
    unfolding on_outcome
    on_result domain checker attempt again result =
        on_outcome result.outcome domain checker attempt (again result) result

    -- the two `except` clauses
    unfoldable pub on_error :
        MonitoredDomain
        → Text
        → ℕ
        → Exec (World E R) CheckResult
        → Error
        → Exec (World E R) CheckResult
    unfolding retry_or emit_failed
    on_error domain checker attempt again (transient_check_error m) = retry_or attempt again (
        emit_failed domain.name checker (or_else m (lit "transient_error")) true
        >> throw (transient_check_error m))
    on_error domain checker attempt again (permanent_check_error m) =
        emit_failed domain.name checker (or_else m (lit "permanent_error")) false
        >> throw (permanent_check_error m)
    on_error domain checker attempt again e = throw e

    -- what stands behind the loop
    unfoldable pub after_loop : Option CheckResult → Exec (World E R) CheckResult
    after_loop none = throw runtime_error
    after_loop (some result) = pure result

    -- `for attempt in range(1, max_attempts + 1)`: the rounds left, the attempt, `last_result`
    unfoldable pub check_loop :
        ℕ
        → MonitoredDomain
        → DomainName
        → Text
        → ℕ
        → Option CheckResult
        → Exec (World E R) CheckResult
    unfolding on_result on_error after_loop
    check_loop zero domain name checker attempt last = after_loop last
    check_loop (suc left) domain name checker attempt last =
        try (outside_raising (env.check checker name))
          (on_error domain checker attempt (check_loop left domain name checker (suc attempt) last))
          (on_result domain checker attempt
            (λ result. check_loop left domain name checker (suc attempt) (some result)))

    -- `execute`
    unfoldable pub execute : DomainName → Exec (World E R) CheckResult
    unfolding check_loop
    execute name w = elim (repo.get w.store name) [
      | none ↦ (raise domain_not_monitored_error, w)
      | some domain ↦ elim (Dict.get uc.checkers domain.checker_id) [
        | none ↦ (raise checker_not_registered_error, w)
        | some checker ↦ check_loop uc.retry_policy.max_attempts domain name checker 1 none w
      ]
    ]
