-- ===== src/Application/CheckDomain/Endings.antt =====
-- The ways in which `CheckDomainUseCase.execute` can end.
use domain_watcher.Application.Events.{Event, domain_check_completed, domain_check_failed}
use domain_watcher.Application.World.{Environment, World}
use domain_watcher.Checking.Retry.{Floats, RetryPolicy, delay_for}
use domain_watcher.Checking.{CheckOutcome, CheckResult}
use domain_watcher.Monitoring.Repository.{MonitoredDomainRepository}
use domain_watcher.Monitoring.{MonitoredDomain, with_check_result}
use domain_watcher.Prelude.{
  ℕ, ◌≤◌, ◌<◌, ◌≡◌, Bool, true, false, List, [], ◌∷◌, ◌++◌, ◌⊎◌, list_eq, nat_eq,
}
use domain_watcher.Shared.DomainName.{DomainName}
use domain_watcher.Shared.Errors.{
  Error, Result, ok, raise, transient_check_error, permanent_check_error,
}
use domain_watcher.Shared.Text.{Text, is_empty}
use domain_watcher.Shared.Time.{Instant}

module _ (F : Floats) {E R : Type 0} (env : Environment E) (repo : MonitoredDomainRepository R)
    (policy : RetryPolicy F) where
  -- One `DomainCheckFailed` has been published, and nothing written.
  pub record Failed (domain : MonitoredDomain) (checker : Text) (transient : Bool) (s : R)
      (p : List Event) (w : World E R) : Type 0 where
    pub at : Instant
    pub reason : Text
    pub explained : is_empty reason ≡ false
    pub stored : w.store ≡ s
    pub events :
        w.published ≡ p ++ (domain_check_failed at domain.name checker reason transient ∷ [])

  -- The result is stored as the last check, and one `DomainCheckCompleted` has been published.
  pub record Completed (domain : MonitoredDomain) (result : CheckResult) (s : R) (p : List Event)
      (w : World E R) : Type 0 where
    pub checked_at : Instant
    pub at : Instant
    pub updated : MonitoredDomain
    pub built : with_check_result domain result checked_at ≡ ok updated
    pub stored : w.store ≡ repo.update updated s
    pub events : w.published ≡ p ++ (domain_check_completed at result ∷ [])

  -- An exception that is no `TransientCheckError` and no `PermanentCheckError`.
  abbrev pub IsOther : Error → Type 0
  IsOther (transient_check_error _) = ⊥
  IsOther (permanent_check_error _) = ⊥
  IsOther _ = Unit

  -- Nothing has been written or published: the checker raised something else, the clock went back
  -- behind the last check, or the delay before another attempt left the range of floats.
  pub record Escaped (domain : MonitoredDomain) (name : DomainName) (checker : Text) (e : Error)
      (s : R) (p : List Event) (w : World E R) : Type 0 where
    pub stored : w.store ≡ s
    pub events : w.published ≡ p
    pub cause :
        (IsOther e × ((v : E) × ((env.check checker name v).0 ≡ raise e)))
        ⊎ (((result : CheckResult) × (at : Instant) × (with_check_result domain result at
                ≡ raise e))
            ⊎ ((attempt : ℕ) × ((1 ≤ attempt) × (attempt < policy.max_attempts))
                × (delay_for F policy attempt ≡ raise e)))

  -- What a run has done that began at the store `s` with `p` published.
  pub data Ends (domain : MonitoredDomain) (name : DomainName) (checker : Text) (s : R)
      (p : List Event) : Result CheckResult → World E R → Type 0 where
    completed :
        {w : World E R} (result : CheckResult)
        → result.outcome ≡ CheckOutcome.ok
        → Completed domain result s p w
        → Ends domain name checker s p (ok result) w
    transient :
        {w : World E R} (result : CheckResult)
        → result.outcome ≡ CheckOutcome.transient_error
        → Failed domain checker true s p w
        → Ends domain name checker s p (ok result) w
    permanent :
        {w : World E R} (result : CheckResult)
        → result.outcome ≡ CheckOutcome.permanent_error
        → Failed domain checker false s p w
        → Ends domain name checker s p (ok result) w
    transient_raised :
        {w : World E R} (m : Text)
        → Failed domain checker true s p w
        → Ends domain name checker s p (raise (transient_check_error m)) w
    permanent_raised :
        {w : World E R} (m : Text)
        → Failed domain checker false s p w
        → Ends domain name checker s p (raise (permanent_check_error m)) w
    escaped :
        {w : World E R} (e : Error)
        → Escaped domain name checker e s p w
        → Ends domain name checker s p (raise e) w

  abbrev pub EndsIn :
      MonitoredDomain → DomainName → Text → R → List Event → Result CheckResult × World E R → Type 0
  EndsIn domain name checker s p (r, w) = Ends domain name checker s p r w
