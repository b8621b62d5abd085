-- ===== src/Application/EventBus/Handlers.antt =====
-- How many handlers of the event bus are called.
use domain_watcher.Application.EventBus.{
  is_instance, Handler, InProcessEventBus, bucket_of, on, safe_calls, run_typed, publish,
}
use domain_watcher.Application.Events.{Event}
use domain_watcher.Dict
use domain_watcher.Dict.{Dict}
use domain_watcher.Prelude.{
  ℕ, suc, ◌+◌, ◌≡◌, refl, List, [], ◌∷◌, ◌++◌, length, map, if◌then◌else◌, Bool-cases, inl, inr,
  arith, ◌==◌, list_eq, nat_eq, eq_iff, length-append,
}
use domain_watcher.Shared.Text.{Text}

module _ {E : Type 0} where
  -- the same handler, which counts its calls
  abbrev pub counted : Handler E → Handler (E × ℕ)
  counted h e w = let (r, v) = h e w.0 in (r, (v, suc w.1))

  abbrev pub counted_bus : InProcessEventBus E → InProcessEventBus (E × ℕ)
  counted_bus bus = record {
    standard_maxsize = bus.standard_maxsize;
    subs = bus.subs;
    typed_callbacks = map (λ b. (b.0, map counted b.1)) bus.typed_callbacks;
    wildcard_callbacks = map counted bus.wildcard_callbacks;
  }

  -- how many handlers are registered for a type that the event is an instance of
  typed_count : Dict Text (List (Handler E)) → Event → ℕ
  typed_count [] e = 0
  typed_count ((name, hs) ∷ typed) e =
      (if is_instance name e then length hs else 0) + typed_count typed e

  safe_calls-counted :
      (hs : List (Handler E)) (e : Event) (w : E × ℕ)
      → (safe_calls (map counted hs) e w).1 ≡ w.1 + length hs
  unfolding safe_calls
  safe_calls-counted [] e w = omega arith
  safe_calls-counted (h ∷ hs) e w = omega (arith, safe_calls-counted hs e (counted h e w).1)

  run_typed-counted :
      (typed : Dict Text (List (Handler E))) (e : Event) (w : E × ℕ)
      → (run_typed (map (λ b. (b.0, map counted b.1)) typed) e w).1 ≡ w.1 + typed_count typed e
  unfolding run_typed typed_count
  run_typed-counted [] e w = omega arith
  run_typed-counted ((name, hs) ∷ typed) e w = elim (Bool-cases (is_instance name e)) [
    | inl hit ↦
        rw (hit, run_typed)
          (omega (
            arith,
            run_typed-counted typed e (safe_calls (map counted hs) e w),
            safe_calls-counted hs e w,
          ))
    | inr miss ↦ rw (miss, run_typed) (omega (arith, run_typed-counted typed e w))
  ]

  -- there are as many calls as handlers that are registered for the event
  publish-counted :
      (bus : InProcessEventBus E) (e : Event) (w : E × ℕ)
      → (publish e (counted_bus bus) w).1.1
        ≡ w.1 + (typed_count bus.typed_callbacks e + length bus.wildcard_callbacks)
  unfolding publish
  publish-counted bus e w = omega (
    arith,
    run_typed-counted bus.typed_callbacks e w,
    safe_calls-counted bus.wildcard_callbacks e (run_typed (counted_bus bus).typed_callbacks e w),
  )

  inserted :
      (typed : Dict Text (List (Handler E))) (name : Text) (handler : Handler E) (e : Event)
      → typed_count (Dict.insert typed name (bucket_of (Dict.get typed name) ++ (handler ∷ []))) e
        ≡ typed_count typed e + (if is_instance name e then 1 else 0)
  unfolding typed_count Dict.insert Dict.get
  inserted [] name handler e = omega arith
  inserted ((j, hs) ∷ typed) name handler e = elim (Bool-cases (j == name)) [
    | inl same ↦
        rw (same, Dict.insert, typed_count, ← (eq_iff j name).0 same)
          (ground (arith, length-append hs (handler ∷ [])))
    | inr other ↦
        rw (other, Dict.insert, typed_count) (omega (arith, inserted typed name handler e))
  ]

  -- After `on` one handler more is registered for the events of its type, and none for others.
  typed_count-on :
      (name : Text) (handler : Handler E) (bus : InProcessEventBus E) (e : Event)
      → typed_count (on name handler bus).typed_callbacks e
        ≡ typed_count bus.typed_callbacks e + (if is_instance name e then 1 else 0)
  unfolding on
  typed_count-on name handler bus e = inserted bus.typed_callbacks name handler e

  on-wildcard :
      (name : Text) (handler : Handler E) (bus : InProcessEventBus E)
      → length (on name handler bus).wildcard_callbacks ≡ length bus.wildcard_callbacks
  unfolding on
  on-wildcard name handler bus = refl

  -- After `on`, `publish` calls one handler more for an event of its type, and for any other event
  -- as many as before, whichever of the handlers raise.
  pub publish-on :
      (name : Text) (handler : Handler E) (bus : InProcessEventBus E) (e : Event) (w : E × ℕ)
      → (publish e (counted_bus (on name handler bus)) w).1.1
        ≡ (publish e (counted_bus bus) w).1.1 + (if is_instance name e then 1 else 0)
  publish-on name handler bus e w =
      let after = on name handler bus in
      omega (
        arith,
        publish-counted after e w,
        publish-counted bus e w,
        typed_count-on name handler bus e,
        on-wildcard name handler bus,
      )
