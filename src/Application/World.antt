-- ===== src/Application/World.antt =====
-- What the use cases are given by injection: the environment (the clock, the checkers, the
-- notifiers, the sleeper), which the program does not implement, the repository, and the event
-- publisher, which here collects what is published.
use domain_watcher.Application.Events.{Event, make_event}
use domain_watcher.Checking.{CheckResult}
use domain_watcher.Notification.{Alert, Channel}
use domain_watcher.Prelude.{ℕ, List, [], ◌∷◌, ◌++◌}
use domain_watcher.Shared.DomainName.{DomainName}
use domain_watcher.Shared.Errors.{Result, ok}
use domain_watcher.Shared.Exec.{Exec, continue}
use domain_watcher.Shared.Text.{Text}
use domain_watcher.Shared.Time.{Instant}

pub record Environment (E : Type 0) : Type 0 where
  -- `clock.now()`
  pub now : E → Instant × E
  -- `checker.check(name)`, for the checker with this id
  pub check : Text → DomainName → E → Result CheckResult × E
  -- `notifier.send(alert, channel)`, for the notifier with this id
  pub send : Text → Alert → Channel → E → Result (Unit {0}) × E
  -- `sleeper(seconds)`
  pub sleep : ℕ → E → E

-- `S` is the state of the store that the use case writes to.
pub record World (E S : Type 0) : Type 0 where
  pub env : E
  pub store : S
  pub published : List Event

module _ {E S : Type 0} where
  -- an operation of the environment
  abbrev pub outside : {A : Type 0} → (E → A × E) → Exec (World E S) A
  outside f w = let (a, e) = f w.env in (ok a, record w { env = e })

  abbrev pub outside_raising : {A : Type 0} → (E → Result A × E) → Exec (World E S) A
  outside_raising f w = let (r, e) = f w.env in (r, record w { env = e })

  abbrev pub write : (S → S) → Exec (World E S) (Unit {0})
  write f w = (ok tt, record w { store = f w.store })

  -- `publisher.publish(Event(…))`: the event is built, which may raise, and handed over
  abbrev pub publish : Event → Exec (World E S) (Unit {0})
  publish event w =
      continue (make_event event) (λ e v. (ok tt, record v { published = v.published ++ (e ∷ []) }))
        w
