-- ===== src/Application/EventBus/Delivery.antt =====
-- What one subscriber of the event bus reads.
use domain_watcher.Application.EventBus.Actions.{
  Action, enqueued, asked, crit_ran, std_ran, woken, cancelled, Read, act, act_all, criticals,
  event_of, criticals_of, held, IsSubscriber,
}
use domain_watcher.Application.EventBus.Moves.{
  Moves, enqueue-Moves, asked-Moves, crit_ran-Moves, std_ran-Moves,
}
use domain_watcher.Application.EventBus.Ended.{woken-Moves, cancelled-Moves}
use domain_watcher.Application.EventBus.Reading.{SubscriberIterator}
use domain_watcher.Application.Events.{Event, is_critical}
use domain_watcher.Prelude.{
  ◌<◌, ◌≡◌, refl, List, [], ◌∷◌, ◌++◌, filter, ◌∙◌, ap, sym, append_assoc, append-nil, Bool-cases,
  inl, inr,
}

act-Moves :
    (a : Action) (it : SubscriberIterator)
    → 0 < it.sub.maxsize
    → IsSubscriber it
    → Moves it (act a it).1 (act a it).0 (criticals (a ∷ []))
unfolding act criticals
act-Moves (enqueued e) it pos h = enqueue-Moves e it pos h
act-Moves asked it pos h = asked-Moves it.sub it.wait h
act-Moves crit_ran it pos h = crit_ran-Moves it.sub.critical_q it.sub.standard_q it.sub it.wait h
act-Moves std_ran it pos h = std_ran-Moves it.sub.critical_q it.sub.standard_q it.sub it.wait h
act-Moves woken it pos h = woken-Moves it.sub it.wait pos h
act-Moves cancelled it pos h = cancelled-Moves it.sub it.wait h

criticals-cons :
    (a : Action) (as' : List Action) → criticals (a ∷ as') ≡ criticals (a ∷ []) ++ criticals as'
unfolding criticals
criticals-cons asked as' = refl
criticals-cons crit_ran as' = refl
criticals-cons std_ran as' = refl
criticals-cons woken as' = refl
criticals-cons cancelled as' = refl
criticals-cons (enqueued e) as' = elim (Bool-cases (is_critical e)) [
  | inl c ↦ rw c refl
  | inr c ↦ rw c refl
]

criticals_of-append :
    (rs more : List Read) → criticals_of (rs ++ more) ≡ criticals_of rs ++ criticals_of more
unfolding filter
criticals_of-append [] more = refl
criticals_of-append (r ∷ rs) more = elim (Bool-cases (is_critical (event_of r))) [
  | inl c ↦ rw (c, criticals_of-append rs more) refl
  | inr c ↦ rw (c, criticals_of-append rs more) refl
]

chain :
    (r m u t s n k : List Event) → m ++ u ≡ t ++ k → r ++ t ≡ s ++ n → (r ++ m) ++ u ≡ s ++ (n ++ k)
chain r m u t s n k h g =
    append_assoc r m u
    ∙ ap (λ x. r ++ x) h
    ∙ sym (append_assoc r t k)
    ∙ ap (λ x. x ++ k) g
    ∙ append_assoc s n k

-- Whatever happens to a subscriber whose queue has a bound, and in whatever order the publishers and
-- the steps of the iterator come, the standard queue keeps the bound; and the critical events that
-- calls have given, or have lost by `QueueFull` or by being cancelled, then the one that a call has got, and behind it
-- those that wait, are exactly those that there were at first and then those that were enqueued, in
-- order.
pub act_all-IsSubscriber :
    (as' : List Action) (it : SubscriberIterator)
    → 0 < it.sub.maxsize
    → IsSubscriber it
    → let (read, last) = act_all as' it in
      (IsSubscriber last × (last.sub.maxsize ≡ it.sub.maxsize))
      × (criticals_of read ++ (held last.wait ++ last.sub.critical_q)
          ≡ (held it.wait ++ it.sub.critical_q) ++ criticals as')
unfolding act_all
act_all-IsSubscriber [] it pos h =
    ((h, refl), unfold filter criticals in sym (append-nil (held it.wait ++ it.sub.critical_q)))
act_all-IsSubscriber (a ∷ as') it pos h =
    let m = act-Moves a it pos h in
    let (read, t) = act a it in
    let ((kept, size), conserved) = act_all-IsSubscriber as' t (rw m.size pos) m.kept in
    (
      (kept, size ∙ m.size),
      rw (criticals_of-append read (act_all as' t).0, criticals-cons a as')
          (chain (criticals_of read) (criticals_of (act_all as' t).0)
            (held (act_all as' t).1.wait ++ (act_all as' t).1.sub.critical_q)
            (held t.wait ++ t.sub.critical_q) (held it.wait ++ it.sub.critical_q)
            (criticals (a ∷ [])) (criticals as') conserved m.conserved),
    )
