-- ===== src/Application/EventBus/Moves.antt =====
-- What each step does to the queues of a subscriber.
use domain_watcher.Application.EventBus.Actions.{
  Read, criticals_of, held, held_standard, IsSubscriber,
}
use domain_watcher.Application.EventBus.Queues.{
  all-append, put_standard-bound, put_standard-standard,
}
use domain_watcher.Application.EventBus.Reading.{
  Wait, idle, waiting, SubscriberIterator, begin_wait, ask_next, run_get, run_crit, run_std,
}
use domain_watcher.Application.EventBus.{Subscriber, enqueue}
use domain_watcher.Application.Events.{Event, is_critical}
use domain_watcher.Prelude.{
  ◌<◌, ◌≡◌, refl, Bool, true, false, not, Option, none, some, List, [], ◌∷◌, ◌++◌, if◌then◌else◌,
  filter, arith, ◌∙◌, sym, append_assoc, append-nil, Bool-cases, inl, inr, all,
}

-- What one action does to the queues, and that no critical event vanishes or is overtaken.
pub record Moves (s t : SubscriberIterator) (read : List Read) (new : List Event) : Type 0 where
  pub kept : IsSubscriber t
  pub size : t.sub.maxsize ≡ s.sub.maxsize
  pub conserved :
      criticals_of read ++ (held t.wait ++ t.sub.critical_q)
      ≡ (held s.wait ++ s.sub.critical_q) ++ new

pub enqueue-Moves :
    (e : Event) (it : SubscriberIterator)
    → 0 < it.sub.maxsize
    → IsSubscriber it
    → Moves it (record it { sub = enqueue e it.sub }) [] (if is_critical e then e ∷ [] else [])
unfolding enqueue filter all
enqueue-Moves e it pos h = elim (Bool-cases (is_critical e)) [
  | inl c ↦ rw c (record {
    kept = record {
      critical = all-append is_critical it.sub.critical_q (e ∷ []) h.critical (rw c refl);
      standard = h.standard;
      got = h.got;
      beside = h.beside;
      bounded = h.bounded;
    };
    size = refl;
    conserved = sym (append_assoc (held it.wait) it.sub.critical_q (e ∷ []));
  })
  | inr c ↦ rw c (record {
    kept = record {
      critical = h.critical;
      standard =
          put_standard-standard it.sub.id it.sub.maxsize e it.sub.standard_q (rw c refl) h.standard;
      got = h.got;
      beside = h.beside;
      bounded = put_standard-bound it.sub.id it.sub.maxsize e it.sub.standard_q pos h.bounded;
    };
    size = refl;
    conserved = sym (append-nil (held it.wait ++ it.sub.critical_q));
  })
]

-- an action that reads nothing and puts nothing in
pub still :
    (s t : SubscriberIterator)
    → IsSubscriber t
    → t.sub.maxsize ≡ s.sub.maxsize
    → held t.wait ++ t.sub.critical_q ≡ held s.wait ++ s.sub.critical_q
    → Moves s t [] []
unfolding filter
still s t h size same = record {
  kept = h;
  size = size;
  conserved = same ∙ sym (append-nil (held s.wait ++ s.sub.critical_q));
}

-- an iterator with these queues
abbrev pub at : List Event → List Event → Subscriber → Wait → SubscriberIterator
at cs es s w = record { sub = record s { critical_q = cs; standard_q = es }; wait = w }

either-Moves :
    (b : Bool) (s t u : SubscriberIterator)
    → Moves s t [] []
    → Moves s u [] []
    → Moves s (if b then t else u) [] []
either-Moves true s t u h k = h
either-Moves false s t u h k = k

pub asked-Moves :
    (s : Subscriber) (w : Wait)
    → IsSubscriber (record { sub = s; wait = w })
    → Moves (record { sub = s; wait = w }) (ask_next (record { sub = s; wait = w })) [] []
unfolding ask_next begin_wait all
asked-Moves s idle h = either-Moves s.closed _ _ _ (still _ _ h refl refl) (
    still _ _
      (record {
        critical = h.critical;
        standard = h.standard;
        got = refl;
        beside = refl;
        bounded = h.bounded;
      })
      refl refl)
asked-Moves s (waiting crit std) h =
    either-Moves s.closed _ _ _ (still _ _ h refl refl) (still _ _ h refl refl)

pub crit_ran-Moves :
    (cs es : List Event) (s : Subscriber) (w : Wait)
    → IsSubscriber (at cs es s w)
    → Moves (at cs es s w) (run_crit (at cs es s w)) [] []
unfolding run_crit run_get all
crit_ran-Moves cs es s idle h = still _ _ h refl refl
crit_ran-Moves [] es s (waiting none std) h = still _ _ h refl refl
crit_ran-Moves cs es s (waiting (some c) std) h = still _ _ h refl refl
crit_ran-Moves (c ∷ cs) es s (waiting none std) h =
    still _ _
      (record {
        critical = ground (arith, h.critical);
        standard = h.standard;
        got = ground (arith, h.critical);
        beside = beside_same std h.beside;
        bounded = h.bounded;
      })
      refl refl
  where
    beside_same :
        (std : Option Event)
        → all (λ e. not (is_critical e)) (held_standard (waiting none std)) ≡ true
        → all (λ e. not (is_critical e)) (held_standard (waiting (some c) std)) ≡ true
    beside_same none h = h
    beside_same (some e) h = h

pub std_ran-Moves :
    (cs es : List Event) (s : Subscriber) (w : Wait)
    → IsSubscriber (at cs es s w)
    → Moves (at cs es s w) (run_std (at cs es s w)) [] []
unfolding run_std run_get all
std_ran-Moves cs es s idle h = still _ _ h refl refl
std_ran-Moves cs [] s (waiting crit none) h = still _ _ h refl refl
std_ran-Moves cs es s (waiting crit (some e)) h = still _ _ h refl refl
std_ran-Moves cs (e ∷ es) s (waiting none none) h =
    still _ _
      (record {
        critical = h.critical;
        standard = ground (arith, h.standard);
        got = h.got;
        beside = ground (arith, h.standard);
        bounded = omega (arith, h.bounded);
      })
      refl refl
std_ran-Moves cs (e ∷ es) s (waiting (some c) none) h =
    still _ _
      (record {
        critical = h.critical;
        standard = ground (arith, h.standard);
        got = h.got;
        beside = ground (arith, h.standard);
        bounded = omega (arith, h.bounded);
      })
      refl refl
