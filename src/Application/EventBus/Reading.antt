-- ===== src/Application/EventBus/Reading.antt =====
-- `_SubscriberIterator` of application/event_bus.py: how a subscriber reads. Publishers may run
-- between its steps.
use domain_watcher.Application.EventBus.{Subscriber, is_full}
use domain_watcher.Application.Events.{Event}
use domain_watcher.Prelude.{
  ℕ, true, Option, none, some, List, [], ◌∷◌, ◌++◌, nat_eq, list_eq, if◌then◌else◌,
}
use domain_watcher.Shared.Errors.{Error, Result, ok, raise, exception}

-- `_SubscriberIterator._wait_for_either`: whether it waits for its tasks `crit` and `std`, and what
-- these have got by then.
pub data Wait : Type 0 where
  idle : Wait
  waiting : Option Event → Option Event → Wait

pub record SubscriberIterator : Type 0 where
  pub sub : Subscriber
  pub wait : Wait

-- `create_task` of the two
unfoldable pub begin_wait : Wait → Wait
begin_wait idle = waiting none none
begin_wait w = w

-- `__anext__` up to there: a closed subscription ends the iteration
unfoldable pub ask_next : SubscriberIterator → SubscriberIterator
unfolding begin_wait
ask_next it = if it.sub.closed then it else record it { wait = begin_wait it.wait }

-- a step of a task that runs `queue.get()`: what it has got, and the queue
unfoldable pub run_get : Option Event → List Event → Option Event × List Event
run_get none (e ∷ es) = (some e, es)
run_get got q = (got, q)

unfoldable pub run_crit : SubscriberIterator → SubscriberIterator
unfolding run_get
run_crit it = elim it.wait [
  | idle ↦ it
  | waiting crit std ↦
      (let (got, q) = run_get crit it.sub.critical_q in
        record { sub = record it.sub { critical_q = q }; wait = waiting got std })
]

unfoldable pub run_std : SubscriberIterator → SubscriberIterator
unfolding run_get
run_std it = elim it.wait [
  | idle ↦ it
  | waiting crit std ↦
      (let (got, q) = run_get std it.sub.standard_q in
        record { sub = record it.sub { standard_q = q }; wait = waiting crit got })
]

-- `QueueFull`, which has no message
abbrev pub queue_full : Error
queue_full = exception []

-- `put_nowait`
unfoldable pub put_nowait : ℕ → Event → List Event → Result (List Event)
unfolding is_full
put_nowait maxsize e q = if is_full maxsize q then raise queue_full else ok (q ++ (e ∷ []))

abbrev pub given_back : Event → Subscriber → Result (List Event) → Result Event × Subscriber
given_back c s (ok q) = (ok c, record s { standard_q = q })
given_back c s (raise x) = (raise x, s)

-- what stands behind `asyncio.wait`, which goes on when a task is done: the result of the call
unfoldable pub after_wait :
    Option Event → Option Event → Subscriber → Option (Result Event × Subscriber)
unfolding put_nowait
after_wait (some c) (some e) s = some (given_back c s (put_nowait s.maxsize e s.standard_q))
after_wait (some c) none s = some (ok c, s)
after_wait none (some e) s = some (ok e, s)
after_wait none none s = none

abbrev pub resumed :
    SubscriberIterator
    → Option (Result Event × Subscriber)
    → Option (Result Event) × SubscriberIterator
resumed it none = (none, it)
resumed it (some (r, s)) = (some r, record { sub = s; wait = idle })

-- `_wait_for_either` goes on, and its call ends
unfoldable pub resume : SubscriberIterator → Option (Result Event) × SubscriberIterator
unfolding after_wait
resume it = elim it.wait [
  | idle ↦ (none, it)
  | waiting crit std ↦ resumed it (after_wait crit std it.sub)
]

-- the clause for `CancelledError`: what the tasks have got is gone with them, and the subscriber is
-- closed and dropped
unfoldable pub cancel : SubscriberIterator → SubscriberIterator
cancel it = elim it.wait [
  | idle ↦ it
  | waiting crit std ↦ record { sub = record it.sub { closed = true }; wait = idle }
]
