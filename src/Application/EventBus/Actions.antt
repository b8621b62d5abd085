-- ===== src/Application/EventBus/Actions.antt =====
-- The steps of a subscriber of the event bus and of its iterator.
use domain_watcher.Application.EventBus.Reading.{
  Wait, waiting, SubscriberIterator, ask_next, run_crit, run_std, resume, cancel,
}
use domain_watcher.Application.EventBus.{enqueue}
use domain_watcher.Application.Events.{Event, is_critical}
use domain_watcher.Prelude.{
  map, ◌≤◌, ◌≡◌, true, not, Option, some, List, [], ◌∷◌, ◌++◌, length, if◌then◌else◌, filter, all,
}
use domain_watcher.Shared.Errors.{Result, ok, raise}

-- What happens to a subscriber and its iterator: an event is enqueued, `__anext__` is called, one of
-- the two tasks takes a step, the call goes on, or it is cancelled.
pub data Action : Type 0 where
  enqueued : Event → Action
  asked crit_ran std_ran woken cancelled : Action

-- What a call of `__anext__` has come to: the event that it gives, or an exception, `QueueFull` or
-- `CancelledError`, which takes the critical event with it that the call had got.
pub data Read : Type 0 where
  given lost : Event → Read

unfoldable pub outcome : Wait → Option (Result Event) → List Read
outcome w (some (ok e)) = given e ∷ []
outcome (waiting (some c) std) (some (raise x)) = lost c ∷ []
outcome w r = []

abbrev pub cut_off : Wait → List Read
cut_off (waiting (some c) std) = lost c ∷ []
cut_off w = []

-- one action: what is read, and the iterator behind it
unfoldable pub act : Action → SubscriberIterator → List Read × SubscriberIterator
act (enqueued e) it = ([], record it { sub = enqueue e it.sub })
act asked it = ([], ask_next it)
act crit_ran it = ([], run_crit it)
act std_ran it = ([], run_std it)
act woken it = let (r, next) = resume it in (outcome it.wait r, next)
act cancelled it = (cut_off it.wait, cancel it)

-- the actions one after another: all that is read, in order
unfoldable pub act_all : List Action → SubscriberIterator → List Read × SubscriberIterator
act_all [] it = ([], it)
act_all (a ∷ as') it =
    let (read, next) = act a it in let (more, last) = act_all as' next in (read ++ more, last)

-- the critical events among those that are enqueued
unfoldable pub criticals : List Action → List Event
criticals [] = []
criticals (enqueued e ∷ as') = let rest = criticals as' in if is_critical e then e ∷ rest else rest
criticals (a ∷ as') = criticals as'

abbrev pub event_of : Read → Event
event_of (given e) = e
event_of (lost e) = e

-- the critical events among those that were given or lost
abbrev pub criticals_of : List Read → List Event
criticals_of rs = filter is_critical (map event_of rs)

-- the critical event that the call in progress has got
abbrev pub held : Wait → List Event
held (waiting (some c) std) = c ∷ []
held w = []

abbrev pub held_standard : Wait → List Event
held_standard (waiting crit (some e)) = e ∷ []
held_standard w = []

-- The critical queue, and what was taken from it, has critical events only, the standard one none,
-- and that one keeps its bound.
pub record IsSubscriber (it : SubscriberIterator) : Type 0 where
  pub critical : all is_critical it.sub.critical_q ≡ true
  pub standard : all (λ e. not (is_critical e)) it.sub.standard_q ≡ true
  pub got : all is_critical (held it.wait) ≡ true
  pub beside : all (λ e. not (is_critical e)) (held_standard it.wait) ≡ true
  pub bounded : length it.sub.standard_q ≤ it.sub.maxsize
