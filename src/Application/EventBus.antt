-- ===== src/Application/EventBus.antt =====
-- `InProcessEventBus` of application/event_bus.py: the queues of the subscribers, and `publish`. A
-- handler works on the state `E` of the world outside; one that publishes or subscribes in its turn
-- is not modelled. A type is the name of its class.
pub mod Queues
pub mod Reading
pub mod Actions
pub mod Moves
pub mod Ended
pub mod Delivery
pub mod Race
pub mod Handlers
pub mod Called
use domain_watcher.Dict
use domain_watcher.Dict.{Dict}
use domain_watcher.Application.Events.{
  Event, domain_added, domain_removed, domain_check_requested, domain_check_completed,
  domain_check_failed, notification_dispatched, notification_failed, whois_rule_learned,
  whois_rule_revalidated, whois_rule_invalidated, parse_failed, bus_overflow, is_critical,
  occurred_at,
}
use domain_watcher.Prelude.{
  ℕ, zero, suc, ◌||◌, ◌&&◌, Bool, true, false, not, Option, none, some, List, [], ◌∷◌, ◌++◌, length,
  leb, ltb, ◌==◌, nat_eq, list_eq, if◌then◌else◌,
}
use domain_watcher.Shared.Decimal.{decimal}
use domain_watcher.Shared.Errors.{Error, Result, ok, raise, exception}
use domain_watcher.Shared.Text.{Text, lit}

-- `_Subscriber`; `maxsize` is that of its standard queue, 0 for a queue without a bound
pub record Subscriber : Type 0 where
  pub id : Text
  pub critical_q : List Event
  pub standard_q : List Event
  pub maxsize : ℕ
  pub closed : Bool

-- `type(event).__name__`
unfoldable pub type_name : Event → Text
unfolding lit
type_name (domain_added _ _) = lit "DomainAdded"
type_name (domain_removed _ _) = lit "DomainRemoved"
type_name (domain_check_requested _ _ _) = lit "DomainCheckRequested"
type_name (domain_check_completed _ _) = lit "DomainCheckCompleted"
type_name (domain_check_failed _ _ _ _ _) = lit "DomainCheckFailed"
type_name (notification_dispatched _ _ _) = lit "NotificationDispatched"
type_name (notification_failed _ _ _ _ _) = lit "NotificationFailed"
type_name (whois_rule_learned _ _ _ _ _) = lit "WhoisRuleLearned"
type_name (whois_rule_revalidated _ _ _) = lit "WhoisRuleRevalidated"
type_name (whois_rule_invalidated _ _ _ _) = lit "WhoisRuleInvalidated"
type_name (parse_failed _ _ _ _) = lit "ParseFailed"
type_name (bus_overflow _ _ _) = lit "BusOverflow"

-- `queue.full()`
unfoldable pub is_full : ℕ → List Event → Bool
is_full maxsize q = ltb 0 maxsize && leb maxsize (length q)

abbrev pub drop_first : List Event → List Event
drop_first [] = []
drop_first (e ∷ es) = es

-- `put_nowait`, and where it raises `QueueFull` the first item goes and it is tried again
unfoldable pub put_or_drop : ℕ → Event → List Event → List Event
unfolding is_full
put_or_drop maxsize e q = if is_full maxsize q then drop_first q ++ (e ∷ []) else q ++ (e ∷ [])

-- the part of `_enqueue` for standard events
unfoldable pub put_standard : Text → ℕ → Event → List Event → List Event
unfolding put_or_drop type_name
put_standard id maxsize e q =
    if is_full maxsize q
    then put_or_drop maxsize (bus_overflow (occurred_at e) id (type_name e))
        (drop_first q ++ (e ∷ []))
    else q ++ (e ∷ [])

-- `_enqueue`: the critical queue has no bound, so its `put` never waits
unfoldable pub enqueue : Event → Subscriber → Subscriber
unfolding put_standard
enqueue e s =
    if is_critical e
    then record s { critical_q = s.critical_q ++ (e ∷ []) }
    else record s { standard_q = put_standard s.id s.maxsize e s.standard_q }

-- the loop of `publish` over the subscribers
unfoldable pub enqueue_all : Event → List Subscriber → List Subscriber
enqueue_all e [] = []
enqueue_all e (s ∷ ss) =
    let rest = enqueue_all e ss in if s.closed then s ∷ rest else enqueue e s ∷ rest

-- `isinstance(event, registered_type)`, for the class of an event or `DomainEvent`
unfoldable pub is_instance : Text → Event → Bool
unfolding type_name lit
is_instance name e = name == lit "DomainEvent" || name == type_name e

abbrev pub Handler : Type 0 → Type 0
Handler E = Event → E → Result (Unit {0}) × E

-- `typed_callbacks` has the handlers of each registered type.
pub record InProcessEventBus (E : Type 0) : Type 0 where
  pub standard_maxsize : ℕ
  pub subs : List Subscriber
  pub typed_callbacks : Dict Text (List (Handler E))
  pub wildcard_callbacks : List (Handler E)

abbrev pub bucket_of : {A : Type 0} → Option (List A) → List A
bucket_of none = []
bucket_of (some hs) = hs

-- the list without the item at a position
unfoldable pub without : ℕ → List Subscriber → List Subscriber
without i [] = []
without zero (s ∷ ss) = ss
without (suc i) (s ∷ ss) = s ∷ without i ss

module _ {E : Type 0} where
  unfoldable pub on : Text → Handler E → InProcessEventBus E → InProcessEventBus E
  on name handler bus = record bus {
    typed_callbacks =
        Dict.insert bus.typed_callbacks name
          (bucket_of (Dict.get bus.typed_callbacks name) ++ (handler ∷ []));
  }

  unfoldable pub on_any : Handler E → InProcessEventBus E → InProcessEventBus E
  on_any handler bus = record bus { wildcard_callbacks = bus.wildcard_callbacks ++ (handler ∷ []) }

  -- the handlers in turn by `_safe_call`, which drops what one raises
  unfoldable pub safe_calls : List (Handler E) → Event → E → E
  safe_calls [] e w = w
  safe_calls (h ∷ hs) e w = safe_calls hs e (h e w).1

  -- the first loop of `_run_callbacks`
  unfoldable pub run_typed : Dict Text (List (Handler E)) → Event → E → E
  unfolding safe_calls is_instance
  run_typed [] e w = w
  run_typed ((name, hs) ∷ typed) e w =
      run_typed typed e (if is_instance name e then safe_calls hs e w else w)

  unfoldable pub run_callbacks : InProcessEventBus E → Event → E → E
  unfolding run_typed
  run_callbacks bus e w = safe_calls bus.wildcard_callbacks e (run_typed bus.typed_callbacks e w)

  unfoldable pub publish : Event → InProcessEventBus E → E → InProcessEventBus E × E
  unfolding enqueue_all run_callbacks
  publish e bus w = (record bus { subs = enqueue_all e bus.subs }, run_callbacks bus e w)

  -- `_drop_subscriber`, of the subscriber at a position
  unfoldable pub drop_subscriber : ℕ → InProcessEventBus E → InProcessEventBus E
  unfolding without
  drop_subscriber i bus = record bus { subs = without i bus.subs }

  -- `events`
  unfoldable pub events : InProcessEventBus E → Subscriber × InProcessEventBus E
  events bus =
      let s : Subscriber = record {
        id = lit "iter-" ++ decimal (length bus.subs) [];
        critical_q = [];
        standard_q = [];
        maxsize = bus.standard_maxsize;
        closed = false;
      } in
      (s, record bus { subs = bus.subs ++ (s ∷ []) })
