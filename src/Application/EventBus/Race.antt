-- ===== src/Application/EventBus/Race.antt =====
-- A publisher between the two queues of a subscriber and the call that reads them.
use domain_watcher.Application.EventBus.Actions.{
  Action, enqueued, asked, crit_ran, std_ran, woken, given, lost, outcome, act, act_all,
}
use domain_watcher.Application.EventBus.Moves.{at}
use domain_watcher.Application.EventBus.Reading.{
  Wait, idle, waiting, begin_wait, ask_next, run_get, run_crit, run_std, put_nowait, after_wait,
  resume,
}
use domain_watcher.Application.EventBus.{
  Subscriber, enqueue, type_name, is_full, put_or_drop, put_standard,
}
use domain_watcher.Application.Events.{Event, is_critical, bus_overflow, occurred_at}
use domain_watcher.Prelude.{
  ℕ, ◌+◌, ◌≤◌, ◌<◌, ◌≡◌, refl, Bool, true, false, ◌&&◌, some, List, [], ◌∷◌, ◌++◌, length,
  length-append, map, ltb, leb, ap, not, if◌then◌else◌, arith, Bool-cases, inl, inr, All, ◌∙◌,
}
use domain_watcher.Shared.Text.{Text}

-- a queue with this bound after so many more events
abbrev grown : ℕ → ℕ → ℕ
grown n k = if ltb k n then k else n

put_or_drop-length :
    (n : ℕ) (e : Event) (q : List Event)
    → 0 < n
    → length q ≤ n
    → length (put_or_drop n e q) ≡ grown n (length q + 1)
unfolding put_or_drop is_full
put_or_drop-length n e [] pos h = ground arith
put_or_drop-length n e (x ∷ q) pos h =
    ground (arith, length-append q (e ∷ []), length-append (x ∷ q) (e ∷ []))

put_standard-length :
    (id : Text) (n : ℕ) (e : Event) (q : List Event)
    → 0 < n
    → length q ≤ n
    → length (put_standard id n e q) ≡ grown n (length q + 1)
unfolding put_standard is_full
put_standard-length id n e [] pos h = ground arith
put_standard-length id n e (x ∷ q) pos h = elim (Bool-cases (ltb 0 n && leb n (length (x ∷ q)))) [
  | inl full ↦ rw full (
      ground (
        arith,
        put_or_drop-length n (bus_overflow (occurred_at e) id (type_name e)) (q ++ (e ∷ [])),
        length-append q (e ∷ []),
        full,
      ))
  | inr room ↦ rw room (ground (arith, length-append (x ∷ q) (e ∷ [])))
]

-- events that a publisher puts in, one after another
unfoldable enqueue_each : List Event → Subscriber → Subscriber
enqueue_each [] s = s
enqueue_each (f ∷ fs) s = enqueue_each fs (enqueue f s)

-- Standard events leave everything but the standard queue, which grows to its bound.
record Grown (s t : Subscriber) (k : ℕ) : Type 0 where
  size : t.maxsize ≡ s.maxsize
  long : length t.standard_q ≡ grown s.maxsize (length s.standard_q + k)

enqueue-Grown :
    (f : Event) (s : Subscriber)
    → is_critical f ≡ false
    → 0 < s.maxsize
    → length s.standard_q ≤ s.maxsize
    → Grown s (enqueue f s) 1
unfolding enqueue
enqueue-Grown f s plain pos h =
    rw plain
      (record { size = refl; long = put_standard-length s.id s.maxsize f s.standard_q pos h })

grown-grown : (n k m : ℕ) → grown n (grown n k + m) ≡ grown n (k + m)
grown-grown n k m = ground arith

enqueue_each-Grown :
    (fs : List Event) (s : Subscriber)
    → All (λ f. is_critical f ≡ false) fs
    → 0 < s.maxsize
    → length s.standard_q ≤ s.maxsize
    → Grown s (enqueue_each fs s) (length fs)
unfolding enqueue_each
enqueue_each-Grown [] s plain pos h = record { size = refl; long = ground (arith, h) }
enqueue_each-Grown (f ∷ fs) s (plain, plains) pos h =
    let first = enqueue-Grown f s plain pos h in
    let y =
      enqueue_each-Grown fs (enqueue f s) plains (rw first.size pos)
        (ground (arith, first.size, first.long)) in
    record { size = y.size ∙ first.size; long = ground (arith, y.long, first.size, first.long) }

act_all-publish :
    (fs : List Event) (as' : List Action) (s : Subscriber) (w : Wait)
    → act_all (map enqueued fs ++ as') (record { sub = s; wait = w })
      ≡ act_all as' (record { sub = enqueue_each fs s; wait = w })
unfolding act_all act enqueue_each
act_all-publish [] as' s w = refl
act_all-publish (f ∷ fs) as' s w = act_all-publish fs as' (enqueue f s) w

act_all-woken :
    (s : Subscriber) (c e : Event)
    → (act_all (woken ∷ []) (record { sub = s; wait = waiting (some c) (some e) })).0
      ≡ ((if is_full s.maxsize s.standard_q then lost c else given c) ∷ [])
unfolding act_all act resume after_wait put_nowait outcome
act_all-woken s c e = elim (Bool-cases (is_full s.maxsize s.standard_q)) [
  | inl full ↦ rw full refl
  | inr room ↦ rw room refl
]

is_full-grown :
    (n k : ℕ) (q : List Event) → 0 < n → length q ≡ grown n k → is_full n q ≡ not (ltb k n)
unfolding is_full
is_full-grown n k q pos h = ground arith

if_not : {A : Type 0} (b : Bool) (x y : A) → (if not b then x else y) ≡ (if b then y else x)
if_not true x y = refl
if_not false x y = refl

if_false : {A : Type 0} (b : Bool) (x y : A) → b ≡ false → (if b then x else y) ≡ y
if_false true x y h = absurd (ground arith)
if_false false x y h = refl

act_all-got :
    (c e : Event) (cs es : List Event) (s : Subscriber) (as' : List Action)
    → s.closed ≡ false
    → (act_all (asked ∷ crit_ran ∷ std_ran ∷ as') (at (c ∷ cs) (e ∷ es) s idle)).0
      ≡ (act_all as' (at cs es s (waiting (some c) (some e)))).0
unfolding act_all act ask_next begin_wait run_crit run_std run_get
act_all-got c e cs es s as' h =
    ap (λ it. (act_all (crit_ran ∷ std_ran ∷ as') it).0) (if_false s.closed _ _ h)

-- A call of `__anext__` that got both a critical and a standard event gives the critical one if
-- there is room for the standard one when it goes on; where the standard events that were published
-- in between have filled the queue, the call raises `QueueFull`, and the critical event is lost.
pub act_all-lost :
    (c e : Event) (cs es fs : List Event) (s : Subscriber)
    → s.closed ≡ false
    → 0 < s.maxsize
    → length (e ∷ es) ≤ s.maxsize
    → All (λ f. is_critical f ≡ false) fs
    → (act_all
        (asked ∷ crit_ran ∷ std_ran ∷ (map enqueued fs ++ (woken ∷ [])))
        (at (c ∷ cs) (e ∷ es) s idle)).0
      ≡ ((if ltb (length es + length fs) s.maxsize then given c else lost c) ∷ [])
act_all-lost c e cs es fs s live pos h plain =
    let rest = record s { critical_q = cs; standard_q = es } in
    let y = enqueue_each-Grown fs rest plain pos (omega (arith, h)) in
    act_all-got c e cs es s (map enqueued fs ++ (woken ∷ [])) live
    ∙ ap (λ p. p.0) (act_all-publish fs (woken ∷ []) rest (waiting (some c) (some e)))
    ∙ act_all-woken (enqueue_each fs rest) c e
    ∙ ap (λ b. (if b then lost c else given c) ∷ [])
        (is_full-grown _ (length es + length fs) _ (rw y.size pos) (rw y.size y.long))
    ∙ ap (λ r. r ∷ [])
        (if_not _ (lost c) (given c)
          ∙ ap (λ n. if ltb (length es + length fs) n then given c else lost c) y.size)
