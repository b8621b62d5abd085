-- ===== src/Tests/Buses.antt =====
-- One subscriber of the event bus, with room for one standard event.
use domain_watcher.Application.EventBus.Actions.{
  Action, enqueued, asked, crit_ran, std_ran, woken, lost, act_all, criticals, criticals_of, held,
  IsSubscriber,
}
use domain_watcher.Application.EventBus.Called.{Named, logged_bus, called, publish-logged}
use domain_watcher.Application.EventBus.Delivery.{act_all-IsSubscriber}
use domain_watcher.Application.EventBus.Handlers.{counted_bus, publish-on}
use domain_watcher.Application.EventBus.Moves.{at}
use domain_watcher.Application.EventBus.Race.{act_all-lost}
use domain_watcher.Application.EventBus.Reading.{SubscriberIterator, idle}
use domain_watcher.Application.EventBus.{
  Subscriber, Handler, InProcessEventBus, is_instance, on, publish,
}
use domain_watcher.Application.Events.{Event, domain_added, parse_failed, is_critical}
use domain_watcher.Dict.{Dict}
use domain_watcher.Prelude.{
  ℕ, ◌+◌, if◌then◌else◌, ◌≡◌, refl, arith, false, List, [], ◌∷◌, ◌++◌, all, All, list_eq, nat_eq,
}
use domain_watcher.Shared.Errors.{ok, raise, value_error}
use domain_watcher.Shared.Text.{Text, lit}
use domain_watcher.Tests.Data.{site}

abbrev subscriber : Subscriber
subscriber = record {
  id = b'i' ∷ [];
  critical_q = [];
  standard_q = [];
  maxsize = 1;
  closed = false;
}

abbrev reader : SubscriberIterator
reader = record { sub = subscriber; wait = idle }

new_IsSubscriber : IsSubscriber reader
unfolding all
new_IsSubscriber = record {
  critical = refl;
  standard = refl;
  got = refl;
  beside = refl;
  bounded = omega arith;
}

abbrev actions : List Action
actions =
    enqueued (domain_added 1 site)
    ∷ enqueued (parse_failed 2 site (b'r' ∷ []) false)
    ∷ asked
    ∷ crit_ran
    ∷ std_ran
    ∷ enqueued (domain_added 3 site)
    ∷ woken
    ∷ asked
    ∷ std_ran
    ∷ woken
    ∷ []

act_all-IsSubscriber_example :
    let (read, last) = act_all actions reader in
    (IsSubscriber last × (last.sub.maxsize ≡ 1))
    × (criticals_of read ++ (held last.wait ++ last.sub.critical_q) ≡ criticals actions)
act_all-IsSubscriber_example = act_all-IsSubscriber actions reader (omega arith) new_IsSubscriber

only_standard : All (λ f. is_critical f ≡ false) (domain_added 3 site ∷ [])
unfolding is_critical
only_standard = (refl, tt)

act_all-lost_example :
    (act_all (asked ∷ crit_ran ∷ std_ran ∷ enqueued (domain_added 3 site) ∷ woken ∷ []) (
      at (parse_failed 2 site (b'r' ∷ []) false ∷ []) (domain_added 1 site ∷ []) subscriber idle)).0
    ≡ lost (parse_failed 2 site (b'r' ∷ []) false) ∷ []
act_all-lost_example =
    act_all-lost (parse_failed 2 site (b'r' ∷ []) false) (domain_added 1 site) [] []
      (domain_added 3 site ∷ []) subscriber refl (omega arith) (omega arith) only_standard

abbrev raising : Handler ℕ
raising e n = (raise value_error, n)

abbrev counting : Handler ℕ
counting e n = (ok tt, n + 1)

abbrev bus : InProcessEventBus ℕ
bus = record {
  standard_maxsize = 1;
  subs = subscriber ∷ [];
  typed_callbacks = (lit "DomainAdded", raising ∷ counting ∷ []) ∷ [];
  wildcard_callbacks = raising ∷ [];
}

abbrev event : Event
event = domain_added 1 site

abbrev typed : Dict Text (List (Named ℕ ℕ))
typed = (lit "DomainAdded", (1, raising) ∷ (2, counting) ∷ []) ∷ (lit "ParseFailed", []) ∷ []

publish-logged_example :
    (publish event (logged_bus 1 (subscriber ∷ []) typed ((3, raising) ∷ [])) (0, [])).1.1
    ≡ called typed event ++ ((3, event) ∷ [])
publish-logged_example = publish-logged 1 (subscriber ∷ []) typed ((3, raising) ∷ []) event (0, [])

publish-on_example :
    (publish event (counted_bus (on (lit "DomainEvent") counting bus)) (0, 0)).1.1
    ≡ (publish event (counted_bus bus) (0, 0)).1.1
      + (if is_instance (lit "DomainEvent") event then 1 else 0)
publish-on_example = publish-on (lit "DomainEvent") counting bus event (0, 0)
