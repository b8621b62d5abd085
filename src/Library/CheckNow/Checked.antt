-- ===== src/Library/CheckNow/Checked.antt =====
-- What a check does to a key: nothing.
use domain_watcher.Application.CheckDomain.Endings.{
  Failed, Ends, completed, transient, permanent, transient_raised, permanent_raised, escaped,
}
use domain_watcher.Application.CheckDomain.Outcomes.{
  execute-Ends, execute-absent, execute-unregistered,
}
use domain_watcher.Application.CheckDomain.{CheckDomainUseCase, execute}
use domain_watcher.Application.Dispatch.Effects.{dispatched, dispatched-append}
use domain_watcher.Application.Events.{Event, domain_check_failed, domain_check_completed}
use domain_watcher.Application.World.{Environment, World}
use domain_watcher.Checking.Retry.{Floats, RetryPolicy}
use domain_watcher.Checking.{CheckResult}
use domain_watcher.Dict
use domain_watcher.Monitoring.Repository.{MonitoredDomainRepository}
use domain_watcher.Monitoring.{MonitoredDomain}
use domain_watcher.Notification.Idempotency.{Key}
use domain_watcher.Prelude.{
  ℕ, ◌≤◌, ◌≡◌, refl, Bool, true, false, ◌||◌, List, ltb, list_eq, nat_eq, pair_eq, arith,
  Option-cases, inl, inr, ap,
}
use domain_watcher.Shared.DomainName.{DomainName}
use domain_watcher.Shared.Errors.{Result}
use domain_watcher.Shared.Text.{Text}

-- Whether a key is recorded and how often it was dispatched, before and after.
pub record Kept (f : Bool) (n : ℕ) (g : Bool) (m : ℕ) : Type 0 where
  pub grows : n ≤ m
  pub fired : g ≡ (f || ltb n m)
  pub unsent : f ≡ true → m ≡ n

pub Kept-same : (f g : Bool) (n m : ℕ) → g ≡ f → m ≡ n → Kept f n g m
Kept-same f g n m h k = record {
  grows = omega (arith, k);
  fired = ground (arith, h, k);
  unsent = λ u. k;
}

pub Kept-trans : (f g h : Bool) (n m l : ℕ) → Kept f n g m → Kept g m h l → Kept f n h l
Kept-trans f g h n m l a b = record {
  grows = omega (arith, a.grows, b.grows);
  fired = ground (arith, a.grows, a.fired, a.unsent, b.grows, b.fired, b.unsent);
  unsent = ground (arith, a.fired, a.unsent, b.unsent);
}

module _ (F : Floats) {E R : Type 0} (env : Environment E) (repo : MonitoredDomainRepository R)
    (k : Key) where
  Failed-dispatched :
      (policy : RetryPolicy F) (domain : MonitoredDomain) (checker : Text) (flag : Bool) (s : R)
      (p : List Event) (w : World E R)
      → Failed F env repo policy domain checker flag s p w
      → dispatched k w.published ≡ dispatched k p
  Failed-dispatched policy domain checker flag s p w h = rw (h.events) (
      omega
        (arith, dispatched-append k p (domain_check_failed h.at domain.name checker h.reason flag)))

  Ends-dispatched :
      (policy : RetryPolicy F) (domain : MonitoredDomain) (name : DomainName) (checker : Text)
      (s : R) (p : List Event) (r : Result CheckResult) (w : World E R)
      → Ends F env repo policy domain name checker s p r w
      → dispatched k w.published ≡ dispatched k p
  Ends-dispatched policy domain name checker s p r w (completed result o h) =
      rw (h.events) (omega (arith, dispatched-append k p (domain_check_completed h.at result)))
  Ends-dispatched policy domain name checker s p r w (transient result o h) =
      Failed-dispatched policy domain checker true s p w h
  Ends-dispatched policy domain name checker s p r w (permanent result o h) =
      Failed-dispatched policy domain checker false s p w h
  Ends-dispatched policy domain name checker s p r w (transient_raised m h) =
      Failed-dispatched policy domain checker true s p w h
  Ends-dispatched policy domain name checker s p r w (permanent_raised m h) =
      Failed-dispatched policy domain checker false s p w h
  Ends-dispatched policy domain name checker s p r w (escaped e h) = ap (dispatched k) h.events

  -- A check dispatches nothing.
  pub execute-dispatched :
      (uc : CheckDomainUseCase F env repo) (name : DomainName) (w : World E R)
      → 1 ≤ uc.retry_policy.max_attempts
      → dispatched k (execute F env repo uc name w).1.published ≡ dispatched k w.published
  execute-dispatched uc name w h = elim (Option-cases (repo.get w.store name)) [
    | inl absent ↦ rw (execute-absent F env repo uc name w absent) refl
    | inr (domain, there) ↦ elim (Option-cases (Dict.get uc.checkers domain.checker_id)) [
      | inl unknown ↦ rw (execute-unregistered F env repo uc name domain w there unknown) refl
      | inr (checker, known) ↦
          Ends-dispatched uc.retry_policy domain name checker w.store w.published _ _
            (execute-Ends F env repo uc name domain checker w h there known)
    ]
  ]
