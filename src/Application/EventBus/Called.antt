-- ===== src/Application/EventBus/Called.antt =====
-- Which handlers of the event bus are called, and in which order.
use domain_watcher.Application.EventBus.{
  is_instance, Handler, InProcessEventBus, safe_calls, run_typed, publish,
}
use domain_watcher.Application.Events.{Event}
use domain_watcher.Application.EventBus.{Subscriber}
use domain_watcher.Dict.{Dict}
use domain_watcher.Prelude.{
  ℕ, ◌≡◌, List, [], ◌∷◌, ◌++◌, map, if◌then◌else◌, Bool-cases, inl, inr, list_eq, nat_eq,
  append_assoc, append-nil, ◌∙◌, sym,
}
use domain_watcher.Shared.Text.{Text}

-- A handler that has a name, of type `A`.
abbrev pub Named : Type 0 → Type 0 → Type 0
Named A E = A × Handler E

module _ {A E : Type 0} where
  -- the handler, which writes its name and the event to a log at each call
  abbrev pub logged : Named A E → Handler (E × List (A × Event))
  logged (a, h) e w = let (r, v) = h e w.0 in (r, (v, w.1 ++ ((a, e) ∷ [])))

  -- the bus with these handlers
  abbrev pub logged_bus :
      ℕ
      → List Subscriber
      → Dict Text (List (Named A E))
      → List (Named A E)
      → InProcessEventBus (E × List (A × Event))
  logged_bus maxsize subs typed wildcard = record {
    standard_maxsize = maxsize;
    subs = subs;
    typed_callbacks = map (λ b. (b.0, map logged b.1)) typed;
    wildcard_callbacks = map logged wildcard;
  }

  -- the names of the handlers whose type the event is an instance of
  unfoldable pub called : Dict Text (List (Named A E)) → Event → List (A × Event)
  called [] e = []
  called ((name, hs) ∷ typed) e =
      (if is_instance name e then map (λ h. (h.0, e)) hs else []) ++ called typed e

  safe_calls-logged :
      (hs : List (Named A E)) (e : Event) (w : E × List (A × Event))
      → (safe_calls (map logged hs) e w).1 ≡ w.1 ++ map (λ h. (h.0, e)) hs
  unfolding safe_calls
  safe_calls-logged [] e w = sym (append-nil w.1)
  safe_calls-logged (h ∷ hs) e w =
      safe_calls-logged hs e (logged h e w).1 ∙ append_assoc w.1 ((h.0, e) ∷ []) _

  run_typed-logged :
      (typed : Dict Text (List (Named A E))) (e : Event) (w : E × List (A × Event))
      → (run_typed (map (λ b. (b.0, map logged b.1)) typed) e w).1 ≡ w.1 ++ called typed e
  unfolding run_typed called
  run_typed-logged [] e w = sym (append-nil w.1)
  run_typed-logged ((name, hs) ∷ typed) e w = elim (Bool-cases (is_instance name e)) [
    | inl hit ↦
        rw (hit, run_typed, called)
          (run_typed-logged typed e (safe_calls (map logged hs) e w)
            ∙ rw (safe_calls-logged hs e w)
                (append_assoc w.1 (map (λ h. (h.0, e)) hs) (called typed e)))
    | inr miss ↦ rw (miss, run_typed, called) (run_typed-logged typed e w)
  ]

  -- `publish` calls each handler that is registered for a type of the event, type by type, and then
  -- each one for all events, in the order of their registration, once each and with this event,
  -- whichever of them raise.
  pub publish-logged :
      (maxsize : ℕ) (subs : List Subscriber) (typed : Dict Text (List (Named A E)))
      (wildcard : List (Named A E)) (e : Event) (w : E × List (A × Event))
      → (publish e (logged_bus maxsize subs typed wildcard) w).1.1
        ≡ w.1 ++ (called typed e ++ map (λ h. (h.0, e)) wildcard)
  unfolding publish
  publish-logged maxsize subs typed wildcard e w =
      let v = run_typed (map (λ b. (b.0, map logged b.1)) typed) e w in
      safe_calls-logged wildcard e v
      ∙ rw (run_typed-logged typed e w) (append_assoc w.1 (called typed e) _)
