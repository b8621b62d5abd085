-- ===== src/Application/EventBus/Ended.antt =====
-- What the end of a call of `__anext__` does to the queues of a subscriber.
use domain_watcher.Application.EventBus.Moves.{Moves, still}
use domain_watcher.Application.EventBus.Actions.{outcome, IsSubscriber, cut_off}
use domain_watcher.Application.EventBus.Queues.{all-append}
use domain_watcher.Application.EventBus.Reading.{
  Wait, idle, waiting, put_nowait, after_wait, resume, cancel,
}
use domain_watcher.Application.EventBus.{Subscriber, is_full}
use domain_watcher.Application.Events.{Event, is_critical}
use domain_watcher.Prelude.{
  ℕ, ◌≤◌, ◌<◌, ◌≡◌, refl, true, false, none, some, List, [], ◌∷◌, ◌++◌, length, ltb, leb, ◌&&◌,
  length-append, filter, arith, ◌∙◌, sym, append-nil, Bool-cases, inl, inr, all,
}

-- a call that has got a critical event gives it, or loses it
first_critical :
    (c : Event) (cs : List Event)
    → is_critical c ≡ true
    → filter is_critical (c ∷ []) ++ cs ≡ c ∷ cs
unfolding filter
first_critical c cs h = rw h refl

no_critical : (e : Event) → is_critical e ≡ false → filter is_critical (e ∷ []) ≡ []
unfolding filter
no_critical e h = rw h refl

with_room :
    (n : ℕ) (q : List Event) (e : Event)
    → (ltb 0 n && leb n (length q)) ≡ false
    → 0 < n
    → length (q ++ (e ∷ [])) ≤ n
with_room n q e h pos = ground (arith, length-append q (e ∷ []))

pub woken-Moves :
    (s : Subscriber) (w : Wait)
    → 0 < s.maxsize
    → IsSubscriber (record { sub = s; wait = w })
    → let (r, next) = resume (record { sub = s; wait = w }) in
      Moves (record { sub = s; wait = w }) next (outcome w r) []
unfolding resume after_wait outcome put_nowait is_full all
woken-Moves s idle pos h = still _ _ h refl refl
woken-Moves s (waiting none none) pos h = still _ _ h refl refl
woken-Moves s (waiting none (some e)) pos h = record {
  kept = record {
    critical = h.critical;
    standard = h.standard;
    got = refl;
    beside = refl;
    bounded = h.bounded;
  };
  size = refl;
  conserved = rw (no_critical e (ground (arith, h.beside))) (sym (append-nil s.critical_q));
}
woken-Moves s (waiting (some c) none) pos h = record {
  kept = record {
    critical = h.critical;
    standard = h.standard;
    got = refl;
    beside = refl;
    bounded = h.bounded;
  };
  size = refl;
  conserved =
      first_critical c s.critical_q (ground (arith, h.got)) ∙ sym (append-nil (c ∷ s.critical_q));
}
woken-Moves s (waiting (some c) (some e)) pos h =
    elim (Bool-cases (ltb 0 s.maxsize && leb s.maxsize (length s.standard_q))) [
      | inl full ↦ rw full (record {
        kept = record {
          critical = h.critical;
          standard = h.standard;
          got = refl;
          beside = refl;
          bounded = h.bounded;
        };
        size = refl;
        conserved =
            first_critical c s.critical_q (ground (arith, h.got))
            ∙ sym (append-nil (c ∷ s.critical_q));
      })
      | inr room ↦ rw room (record {
        kept = record {
          critical = h.critical;
          standard = all-append _ s.standard_q (e ∷ []) h.standard h.beside;
          got = refl;
          beside = refl;
          bounded = with_room s.maxsize s.standard_q e room pos;
        };
        size = refl;
        conserved =
            first_critical c s.critical_q (ground (arith, h.got))
            ∙ sym (append-nil (c ∷ s.critical_q));
      })
    ]

pub cancelled-Moves :
    (s : Subscriber) (w : Wait)
    → IsSubscriber (record { sub = s; wait = w })
    → Moves (record { sub = s; wait = w }) (cancel (record { sub = s; wait = w })) (cut_off w) []
unfolding cancel all filter
cancelled-Moves s idle h = still _ _ h refl refl
cancelled-Moves s (waiting none std) h =
    still _ _
      (record {
        critical = h.critical;
        standard = h.standard;
        got = refl;
        beside = refl;
        bounded = h.bounded;
      })
      refl refl
cancelled-Moves s (waiting (some c) std) h = record {
  kept = record {
    critical = h.critical;
    standard = h.standard;
    got = refl;
    beside = refl;
    bounded = h.bounded;
  };
  size = refl;
  conserved =
      first_critical c s.critical_q (ground (arith, h.got)) ∙ sym (append-nil (c ∷ s.critical_q));
}
