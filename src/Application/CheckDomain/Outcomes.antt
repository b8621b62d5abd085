-- ===== src/Application/CheckDomain/Outcomes.antt =====
-- How `execute` can end, and what it has written and published by then.
use domain_watcher.Application.CheckDomain.Endings.{
  Failed, Ends, EndsIn, completed, transient, permanent, transient_raised, permanent_raised,
  escaped,
}
use domain_watcher.Application.CheckDomain.{
  CheckDomainUseCase, text_or, wait, emit_failed, retry_or, complete, on_outcome, on_result,
  on_error, check_loop, execute,
}
use domain_watcher.Application.Events.{domain_check_failed, make_event}
use domain_watcher.Application.World.{Environment, World}
use domain_watcher.Checking.Retry.{Floats, delay_for}
use domain_watcher.Checking.{CheckOutcome, CheckResult}
use domain_watcher.Dict
use domain_watcher.Monitoring.Repository.{MonitoredDomainRepository}
use domain_watcher.Monitoring.{MonitoredDomain, with_check_result}
use domain_watcher.Prelude.{
  ℕ, zero, suc, ◌+◌, ◌≤◌, ◌<◌, ◌≡◌, refl, Bool, true, false, Option, none, some, [], ◌∷◌, ◌++◌, ltb,
  arith, Bool-cases, inl, inr, ◌⊎◌, list_eq, nat_eq,
}
use domain_watcher.Shared.DomainName.{DomainName}
use domain_watcher.Shared.Errors.{
  Error, Result, Result-cases, ok, raise, transient_check_error, permanent_check_error,
  domain_not_monitored_error, checker_not_registered_error,
}
use domain_watcher.Shared.Exec.{Exec, ◌>>◌}
use domain_watcher.Shared.Text.{Text, lit, is_empty, or_else}

or_else-inhabited : (m d : Text) → is_empty d ≡ false → is_empty (or_else m d) ≡ false
or_else-inhabited [] d h = h
or_else-inhabited (c ∷ m) d h = refl

text_or-inhabited :
    (m : Option Text) (d : Text) → is_empty d ≡ false → is_empty (text_or m d) ≡ false
text_or-inhabited none d h = h
text_or-inhabited (some m) d h = or_else-inhabited m d h

Outcome-cases :
    (o : CheckOutcome)
    → (o ≡ CheckOutcome.ok)
      ⊎ ((o ≡ CheckOutcome.transient_error) ⊎ (o ≡ CheckOutcome.permanent_error))
Outcome-cases CheckOutcome.ok = inl refl
Outcome-cases CheckOutcome.transient_error = inr (inl refl)
Outcome-cases CheckOutcome.permanent_error = inr (inr refl)

module _ (F : Floats) {E R : Type 0} (env : Environment E)
    (repo : MonitoredDomainRepository R) where
  module _ (uc : CheckDomainUseCase F env repo) (domain : MonitoredDomain) (name : DomainName)
      (checker : Text) where
    -- `emit_failed` publishes one event and gives the answer that follows it.
    emit_failed-Failed :
        (reason : Text) (flag : Bool) (w : World E R)
        → is_empty reason ≡ false
        → (v : World E R) × (emit_failed F env repo uc domain.name checker reason flag w
            ≡ (ok tt, v))
          × Failed F env repo uc.retry_policy domain checker flag w.store w.published v
    unfolding emit_failed make_event
    emit_failed-Failed reason flag w h =
        let (now, e) = env.now w.env in
        (
          record w {
            env = e;
            published =
                w.published ++ (domain_check_failed now domain.name checker reason flag ∷ []);
          },
          rw h,
          record { at = now; reason = reason; explained = h; stored = refl; events = refl },
        )

    complete-Ends :
        (result : CheckResult) (w : World E R)
        → result.outcome ≡ CheckOutcome.ok
        → EndsIn F env repo uc.retry_policy domain name checker w.store w.published
            (complete F env repo uc domain result w)
    unfolding complete make_event
    complete-Ends result w good =
        let at = (env.now w.env).0 in
        elim (Result-cases (with_check_result domain result at)) [
          | inl (d, built) ↦ rw built (
              completed result good (record {
                checked_at = at;
                at = _;
                updated = d;
                built = built;
                stored = refl;
                events = refl;
              }))
          | inr (e, failed) ↦ rw failed (
              escaped e
                (record { stored = refl; events = refl; cause = inr (inl (result, at, failed)) }))
        ]

    -- Another attempt, where one is left, begins with nothing written or published.
    retry_or-Ends :
        (attempt : ℕ) (w : World E R) (again stop : Exec (World E R) CheckResult)
        → 1 ≤ attempt
        → (attempt < uc.retry_policy.max_attempts
            → (v : World E R) → v.store ≡ w.store
            → v.published ≡ w.published
            → EndsIn F env repo uc.retry_policy domain name checker w.store w.published (again v))
        → (uc.retry_policy.max_attempts ≤ attempt
            → EndsIn F env repo uc.retry_policy domain name checker w.store w.published (stop w))
        → EndsIn F env repo uc.retry_policy domain name checker w.store w.published
            (retry_or F env repo uc attempt again stop w)
    unfolding retry_or wait
    retry_or-Ends attempt w again stop pos go_on give_up =
        elim (Bool-cases (ltb attempt uc.retry_policy.max_attempts)) [
          | inl more ↦ elim (Result-cases (delay_for F uc.retry_policy attempt)) [
            | inl (d, delayed) ↦ rw (more, delayed) (go_on (ground arith) _ refl refl)
            | inr (x, beyond) ↦
                rw (more, beyond)
                  (escaped x (record {
                    stored = refl;
                    events = refl;
                    cause = inr (inr (attempt, (pos, ground arith), beyond));
                  }))
          ]
          | inr last ↦ rw last (give_up (ground arith))
        ]

    -- After `emit_failed` the run ends as `stop` says.
    emit_failed-Ends :
        (reason : Text) (flag : Bool) (w : World E R) (r : Result CheckResult)
        → is_empty reason ≡ false
        → ((v : World E R)
            → Failed F env repo uc.retry_policy domain checker flag w.store w.published v
            → Ends F env repo uc.retry_policy domain name checker w.store w.published r v)
        → EndsIn F env repo uc.retry_policy domain name checker w.store w.published
            ((emit_failed F env repo uc domain.name checker reason flag >> (λ v. (r, v))) w)
    emit_failed-Ends reason flag w r h stop =
        let (v, done, failed) = emit_failed-Failed reason flag w h in rw done (stop v failed)

    on_outcome-Ends :
        (o : CheckOutcome) (attempt : ℕ) (again : Exec (World E R) CheckResult)
        (result : CheckResult) (w : World E R)
        → result.outcome ≡ o
        → 1 ≤ attempt
        → (attempt < uc.retry_policy.max_attempts
            → (v : World E R) → v.store ≡ w.store
            → v.published ≡ w.published
            → EndsIn F env repo uc.retry_policy domain name checker w.store w.published (again v))
        → EndsIn F env repo uc.retry_policy domain name checker w.store w.published
            (on_outcome F env repo uc o domain checker attempt again result w)
    unfolding on_outcome lit
    on_outcome-Ends CheckOutcome.ok attempt again result w e pos go_on = complete-Ends result w e
    on_outcome-Ends CheckOutcome.transient_error attempt again result w e pos go_on =
        retry_or-Ends attempt w again _ pos go_on (λ _.
          emit_failed-Ends _ true w (ok result) (text_or-inhabited result.error _ refl)
            (λ v f. transient result e f))
    on_outcome-Ends CheckOutcome.permanent_error attempt again result w e pos go_on =
        emit_failed-Ends _ false w (ok result) (text_or-inhabited result.error _ refl)
          (λ v f. permanent result e f)

    on_error-Ends :
        (error : Error) (attempt : ℕ) (again : Exec (World E R) CheckResult) (w : World E R)
        → 1 ≤ attempt
        → ((v : E) × ((env.check checker name v).0 ≡ raise error))
        → (attempt < uc.retry_policy.max_attempts
            → (v : World E R) → v.store ≡ w.store
            → v.published ≡ w.published
            → EndsIn F env repo uc.retry_policy domain name checker w.store w.published (again v))
        → EndsIn F env repo uc.retry_policy domain name checker w.store w.published
            (on_error F env repo uc domain checker attempt again error w)
    unfolding on_error lit
    on_error-Ends (transient_check_error m) attempt again w pos raised go_on =
        retry_or-Ends attempt w again _ pos go_on (λ _.
          emit_failed-Ends _ true w (raise (transient_check_error m)) (or_else-inhabited m _ refl)
            (λ v f. transient_raised m f))
    on_error-Ends (permanent_check_error m) attempt again w pos raised go_on =
        emit_failed-Ends _ false w (raise (permanent_check_error m)) (or_else-inhabited m _ refl)
          (λ v f. permanent_raised m f)
    on_error-Ends e attempt again w pos raised go_on =
        escaped e (record { stored = refl; events = refl; cause = inl (tt, raised) })

    -- The loop with a round left.
    check_loop-Ends :
        (left attempt : ℕ) (last : Option CheckResult) (w : World E R)
        → 1 ≤ attempt
        → attempt + left ≡ uc.retry_policy.max_attempts + 1
        → 1 ≤ left
        → EndsIn F env repo uc.retry_policy domain name checker w.store w.published
            (check_loop F env repo uc left domain name checker attempt last w)
    unfolding check_loop
    check_loop-Ends zero attempt last w pos count some_left = absurd (omega arith)
    check_loop-Ends (suc left) attempt last w pos count some_left =
        let again : (last' : Option CheckResult)
            → attempt < uc.retry_policy.max_attempts
            → (v : World E R) → v.store ≡ w.store
            → v.published ≡ w.published
            → EndsIn F env repo uc.retry_policy domain name checker w.store w.published
                (check_loop F env repo uc left domain name checker (suc attempt) last' v) =
          λ last' more v p q.
            rw (← p, ← q)
              (check_loop-Ends left (suc attempt) last' v (omega arith) (omega arith)
                (omega arith)) in
        elim (Result-cases (env.check checker name w.env).0) [
          | inl (result, e) ↦ rw e (
              unfold on_result in
              (on_outcome-Ends result.outcome attempt _ result _ refl pos (again (some result))))
          | inr (error, e) ↦ rw e (on_error-Ends error attempt _ _ pos (w.env, e) (again last))
        ]

    -- The loop as `execute` runs it, by a policy that allows an attempt.
    pub check_loop-Ends_first :
        (w : World E R)
        → 1 ≤ uc.retry_policy.max_attempts
        → EndsIn F env repo uc.retry_policy domain name checker w.store w.published
            (check_loop F env repo uc uc.retry_policy.max_attempts domain name checker 1 none w)
    check_loop-Ends_first w h =
        check_loop-Ends uc.retry_policy.max_attempts 1 none w (omega arith) (omega arith) h

  module _ (uc : CheckDomainUseCase F env repo) (name : DomainName) where
    execute-watched :
        (domain : MonitoredDomain) (checker : Text) (w : World E R)
        → repo.get w.store name ≡ some domain
        → Dict.get uc.checkers domain.checker_id ≡ some checker
        → execute F env repo uc name w
          ≡ check_loop F env repo uc uc.retry_policy.max_attempts domain name checker 1 none w
    unfolding execute
    execute-watched domain checker w h k = rw (h, execute, k)

    -- For a domain that is watched by a registered checker, and a policy that allows an attempt,
    -- a run ends in one of six ways, each with the events and the writes that `Ends` gives: the loop
    -- never falls through to its `RuntimeError`, publishes one event at most, and writes to the
    -- repository only a result that is OK.
    pub execute-Ends :
        (domain : MonitoredDomain) (checker : Text) (w : World E R)
        → 1 ≤ uc.retry_policy.max_attempts
        → repo.get w.store name ≡ some domain
        → Dict.get uc.checkers domain.checker_id ≡ some checker
        → EndsIn F env repo uc.retry_policy domain name checker w.store w.published
            (execute F env repo uc name w)
    execute-Ends domain checker w h watched registered =
        rw (execute-watched domain checker w watched registered)
          (check_loop-Ends_first uc domain name checker w h)

    -- A name that is not watched, or whose checker is not registered, raises and changes nothing.
    pub execute-absent :
        (w : World E R)
        → repo.get w.store name ≡ none
        → execute F env repo uc name w ≡ (raise domain_not_monitored_error, w)
    unfolding execute
    execute-absent w h = rw (h, execute)

    pub execute-unregistered :
        (domain : MonitoredDomain) (w : World E R)
        → repo.get w.store name ≡ some domain
        → Dict.get uc.checkers domain.checker_id ≡ none
        → execute F env repo uc name w ≡ (raise checker_not_registered_error, w)
    unfolding execute
    execute-unregistered domain w h k = rw (h, execute, k)
