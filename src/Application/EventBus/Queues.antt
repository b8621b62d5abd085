-- ===== src/Application/EventBus/Queues.antt =====
-- What putting an event in does to the standard queue of a subscriber.
use domain_watcher.Application.EventBus.{is_full, drop_first, put_or_drop, put_standard}
use domain_watcher.Application.Events.{Event, is_critical}
use domain_watcher.Prelude.{
  ℕ, ◌≤◌, ◌<◌, ◌≡◌, refl, ◌&&◌, Bool, true, not, List, [], ◌∷◌, ◌++◌, length, length-append, leb,
  ltb, filter, arith, Bool-cases, inl, inr, all,
}
use domain_watcher.Shared.Text.{Text}

pub all-append :
    (p : Event → Bool) (xs ys : List Event)
    → all p xs ≡ true
    → all p ys ≡ true
    → all p (xs ++ ys) ≡ true
unfolding all
all-append p [] ys h k = k
all-append p (x ∷ xs) ys h k = ground (arith, all-append p xs ys)

all-drop_first : (p : Event → Bool) (q : List Event) → all p q ≡ true → all p (drop_first q) ≡ true
unfolding all
all-drop_first p [] h = h
all-drop_first p (x ∷ q) h = ground arith

pub filter-append :
    (p : Event → Bool) (xs ys : List Event) → filter p (xs ++ ys) ≡ filter p xs ++ filter p ys
unfolding filter
filter-append p [] ys = refl
filter-append p (x ∷ xs) ys = elim (Bool-cases (p x)) [
  | inl h ↦ rw (h, filter-append p xs ys) refl
  | inr h ↦ rw (h, filter-append p xs ys) refl
]

put_or_drop-bound :
    (n : ℕ) (e : Event) (q : List Event) → 0 < n → length q ≤ n → length (put_or_drop n e q) ≤ n
unfolding put_or_drop is_full
put_or_drop-bound n e [] pos h = ground arith
put_or_drop-bound n e (x ∷ q) pos h =
    ground (arith, length-append q (e ∷ []), length-append (x ∷ q) (e ∷ []))

pub put_standard-bound :
    (id : Text) (n : ℕ) (e : Event) (q : List Event)
    → 0 < n
    → length q ≤ n
    → length (put_standard id n e q) ≤ n
unfolding put_standard is_full
put_standard-bound id n e [] pos h = ground arith
put_standard-bound id n e (x ∷ q) pos h = elim (Bool-cases (ltb 0 n && leb n (length (x ∷ q)))) [
  | inl full ↦
      rw full (put_or_drop-bound n _ (q ++ (e ∷ [])) pos (omega (arith, length-append q (e ∷ []))))
  | inr room ↦ rw room (ground (arith, length-append (x ∷ q) (e ∷ [])))
]

put_or_drop-all :
    (p : Event → Bool) (n : ℕ) (e : Event) (q : List Event)
    → p e ≡ true
    → all p q ≡ true
    → all p (put_or_drop n e q) ≡ true
unfolding put_or_drop all
put_or_drop-all p n e q h k = elim (Bool-cases (is_full n q)) [
  | inl full ↦ rw full (all-append p (drop_first q) (e ∷ []) (all-drop_first p q k) (rw h refl))
  | inr room ↦ rw room (all-append p q (e ∷ []) k (rw h refl))
]

pub put_standard-standard :
    (id : Text) (n : ℕ) (e : Event) (q : List Event)
    → not (is_critical e) ≡ true
    → all (λ e. not (is_critical e)) q ≡ true
    → all (λ e. not (is_critical e)) (put_standard id n e q) ≡ true
unfolding put_standard all is_critical
put_standard-standard id n e q h k = elim (Bool-cases (is_full n q)) [
  | inl full ↦ rw full (
      put_or_drop-all _ n _ (drop_first q ++ (e ∷ [])) refl
        (all-append _ (drop_first q) (e ∷ []) (all-drop_first _ q k) (rw h refl)))
  | inr room ↦ rw room (all-append _ q (e ∷ []) k (rw h refl))
]
