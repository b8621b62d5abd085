-- ===== src/Application/CheckDomain/Attempts.antt =====
-- How often `execute` asks the checker.
use domain_watcher.Application.CheckDomain.{
  CheckDomainUseCase, wait, emit_failed, retry_or, complete, on_outcome, on_result, on_error,
  after_loop, check_loop, execute,
}
use domain_watcher.Application.Events.{make_event, domain_check_failed}
use domain_watcher.Application.World.{Environment, World}
use domain_watcher.Checking.Retry.{Floats, delay_for}
use domain_watcher.Checking.{CheckOutcome, CheckResult}
use domain_watcher.Dict
use domain_watcher.Monitoring.Repository.{MonitoredDomainRepository}
use domain_watcher.Monitoring.{MonitoredDomain, with_check_result}
use domain_watcher.Prelude.{
  ℕ, zero, suc, ◌+◌, ◌≤◌, ◌≡◌, refl, true, false, ap, Option, none, some, ltb, arith, Bool,
  Bool-cases, Option-cases, inl, inr, list_eq, nat_eq,
}
use domain_watcher.Shared.DomainName.{DomainName}
use domain_watcher.Shared.Errors.{
  Error, Result, Result-cases, ok, raise, transient_check_error, permanent_check_error,
}
use domain_watcher.Shared.Exec.{Exec, ◌>>◌}
use domain_watcher.Shared.Text.{Text}

-- the same environment, which counts the calls of `checker.check`
abbrev pub counting : {E : Type 0} → Environment E → Environment (E × ℕ)
counting env = record {
  now = λ e. let (at, next) = env.now e.0 in (at, (next, e.1));
  check = λ id name e. let (r, next) = env.check id name e.0 in (r, (next, suc e.1));
  send = λ id alert channel e. let (r, next) = env.send id alert channel e.0 in (r, (next, e.1));
  sleep = λ seconds e. (env.sleep seconds e.0, e.1);
}

module _ (F : Floats) {E R : Type 0} (env : Environment E) (repo : MonitoredDomainRepository R)
    (uc : CheckDomainUseCase F (counting env) repo) where
  abbrev Run : Type 0
  Run = Exec (World (E × ℕ) R) CheckResult

  -- a run that begins after `n` calls makes at most `more`
  abbrev AtMost : ℕ → ℕ → Run → Type 0
  AtMost n more run = (v : World (E × ℕ) R) → v.env.1 ≡ n → (run v).1.env.1 ≤ n + more

  emit_failed-AtMost :
      (n more : ℕ) (name : DomainName) (source reason : Text) (flag : Bool) (r : Result CheckResult)
      → AtMost n more
          (emit_failed F (counting env) repo uc name source reason flag >> (λ v. (r, v)))
  unfolding emit_failed
  emit_failed-AtMost n more name source reason flag r v h =
      elim (Result-cases
        (make_event (domain_check_failed (env.now v.env.0).0 name source reason flag))) [
          | inl (e, built) ↦ rw built (omega (arith, h))
          | inr (x, bad) ↦ rw bad (omega (arith, h))
        ]

  complete-AtMost :
      (n more : ℕ) (domain : MonitoredDomain) (result : CheckResult)
      → AtMost n more (complete F (counting env) repo uc domain result)
  unfolding complete make_event
  complete-AtMost n more domain result v h =
      elim (Result-cases (with_check_result domain result (env.now v.env.0).0)) [
        | inl (d, built) ↦ rw built (omega (arith, h))
        | inr (x, bad) ↦ rw bad (omega (arith, h))
      ]

  retry_or-AtMost :
      (n more attempt : ℕ) (again stop : Run)
      → AtMost n more again
      → AtMost n more stop
      → AtMost n more (retry_or F (counting env) repo uc attempt again stop)
  unfolding retry_or wait
  retry_or-AtMost n more attempt again stop go_on give_up v h =
      elim (Bool-cases (ltb attempt uc.retry_policy.max_attempts)) [
        | inl left ↦ elim (Result-cases (delay_for F uc.retry_policy attempt)) [
          | inl (d, given) ↦ rw (left, given) (go_on _ h)
          | inr (x, bad) ↦ rw (left, bad) (omega (arith, h))
        ]
        | inr last ↦ rw last (give_up v h)
      ]

  on_outcome-AtMost :
      (n more : ℕ) (o : CheckOutcome) (domain : MonitoredDomain) (checker : Text) (attempt : ℕ)
      (again : Run) (result : CheckResult)
      → AtMost n more again
      → AtMost n more (on_outcome F (counting env) repo uc o domain checker attempt again result)
  unfolding on_outcome
  on_outcome-AtMost n more CheckOutcome.ok domain checker attempt again result go_on =
      complete-AtMost n more domain result
  on_outcome-AtMost n more CheckOutcome.transient_error domain checker attempt again result go_on =
      retry_or-AtMost n more attempt again _ go_on
        (emit_failed-AtMost n more domain.name checker _ true (ok result))
  on_outcome-AtMost n more CheckOutcome.permanent_error domain checker attempt again result go_on =
      emit_failed-AtMost n more domain.name checker _ false (ok result)

  on_error-AtMost :
      (n more : ℕ) (domain : MonitoredDomain) (checker : Text) (attempt : ℕ) (again : Run)
      (error : Error)
      → AtMost n more again
      → AtMost n more (on_error F (counting env) repo uc domain checker attempt again error)
  unfolding on_error
  on_error-AtMost n more domain checker attempt again (transient_check_error m) go_on =
      retry_or-AtMost n more attempt again _ go_on
        (emit_failed-AtMost n more domain.name checker _ true (raise (transient_check_error m)))
  on_error-AtMost n more domain checker attempt again (permanent_check_error m) go_on =
      emit_failed-AtMost n more domain.name checker _ false (raise (permanent_check_error m))
  on_error-AtMost n more domain checker attempt again e go_on = λ v h. omega (arith, h)

  check_loop-AtMost :
      (left n : ℕ) (domain : MonitoredDomain) (name : DomainName) (checker : Text) (attempt : ℕ)
      (last : Option CheckResult)
      → AtMost n left (check_loop F (counting env) repo uc left domain name checker attempt last)
  unfolding check_loop after_loop
  check_loop-AtMost zero n domain name checker attempt none v h = omega (arith, h)
  check_loop-AtMost zero n domain name checker attempt (some result) v h = omega (arith, h)
  check_loop-AtMost (suc left) n domain name checker attempt last v h =
      elim (Result-cases (env.check checker name v.env.0).0) [
        | inl (result, e) ↦ rw e (
            unfold on_result in
            (moved (
              on_outcome-AtMost (suc n) left result.outcome domain checker attempt _ result
                (check_loop-AtMost left (suc n) domain name checker (suc attempt) (some result)) _
                (ap suc h))))
        | inr (error, e) ↦ rw e (
            moved (
              on_error-AtMost (suc n) left domain checker attempt _ error
                (check_loop-AtMost left (suc n) domain name checker (suc attempt) last) _
                (ap suc h)))
      ]
    where
      moved : {m : ℕ} → m ≤ suc n + left → m ≤ n + suc left
      moved q = omega (arith, q)

  -- `execute` calls `checker.check` at most `max_attempts` times, whatever the checker answers.
  pub execute-attempts :
      (name : DomainName) (w : World (E × ℕ) R)
      → (execute F (counting env) repo uc name w).1.env.1 ≤ w.env.1 + uc.retry_policy.max_attempts
  unfolding execute
  execute-attempts name w = elim (Option-cases (repo.get w.store name)) [
    | inl absent ↦ rw (absent, execute) (omega arith)
    | inr (domain, there) ↦ elim (Option-cases (Dict.get uc.checkers domain.checker_id)) [
      | inl unknown ↦ rw (there, execute, unknown) (omega arith)
      | inr (checker, known) ↦
          rw (there, execute, known)
            (check_loop-AtMost uc.retry_policy.max_attempts w.env.1 domain name checker 1 none w
              refl)
    ]
  ]
