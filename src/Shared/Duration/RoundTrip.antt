-- ===== src/Shared/Duration/RoundTrip.antt =====
-- Parsing back what `Duration` prints.
use native.Mathlib.Nat.{div-add-mod'}
use domain_watcher.Prelude.{
  ℕ, ◌*◌, ◌/◌, ◌%◌, ◌≡◌, refl, ◌∙◌, false, ◌&&◌, List, [], ◌∷◌, some, arith, leb, Bool-cases, inl,
  inr, ◌==◌, nat_eq, All,
}
use domain_watcher.Shared.Decimal.{
  is_digit, decimal, read_digits, read_digits-decimal, IsTight, decimal-IsTight, StartsWithDigit,
  decimal-StartsWithDigit, strip_digits,
}
use domain_watcher.Shared.Duration.{
  Duration, make, unit_seconds, with_unit, match_duration, parse, show_with, show,
}
use domain_watcher.Shared.Errors.{Result, ok}
use domain_watcher.Shared.Text.{Text, is_space, drop_end}

-- The unit letters are no digits and no white space.
unit-is_digit : (u k : ℕ) → unit_seconds u ≡ some k → is_digit u ≡ false
unfolding unit_seconds is_digit
unit-is_digit u k h = ground arith

unit-IsTight : (u k : ℕ) → unit_seconds u ≡ some k → IsTight (u ∷ [])
unfolding unit_seconds drop_end is_space
unit-IsTight u k h = record { end = ground arith; inhabited = refl }

match_duration-digits :
    (s : Text)
    → StartsWithDigit s
    → match_duration s ≡ with_unit (read_digits s 0).0 (read_digits s 0).1
unfolding match_duration
match_duration-digits [] h = absurd h
match_duration-digits (c ∷ s) h = rw h

read_digits-unit : (n u k : ℕ) → unit_seconds u ≡ some k → read_digits (u ∷ []) n ≡ (n, u ∷ [])
unfolding read_digits
read_digits-unit n u k h = rw (unit-is_digit u k h)

-- A printed number and a unit are read as the product.
pub parse-decimal :
    (n u k : ℕ)
    → unit_seconds u ≡ some k
    → parse (decimal n (u ∷ [])) ≡ ok (record { seconds = n * k })
unfolding parse
parse-decimal n u k h =
    let starts = decimal-StartsWithDigit n (u ∷ []) in
    rw (strip_digits _ starts (decimal-IsTight n (unit-IsTight u k h))) (
      match_duration-digits _ starts
      ∙ rw (read_digits-decimal n (u ∷ []), read_digits-unit n u k h)
          (unfold with_unit make in rw (h, with_unit)))

exact_product : (s k : ℕ) → s % k ≡ 0 → s / k * k ≡ s
exact_product s k h = omega (arith, div-add-mod' s k)

same :
    {m n : ℕ}
    → m ≡ n
    → ◌≡◌ {A = Result Duration} (ok (record { seconds = m })) (ok (record { seconds = n }))
same e = cc

-- The unit that the printer chooses divides the number of seconds.
abbrev AreUnits : List (ℕ × ℕ) → Type 0
AreUnits = All (λ u. unit_seconds u.0 ≡ some u.1)

parse-show_with :
    (units : List (ℕ × ℕ)) (s : ℕ)
    → AreUnits units
    → parse (show_with units s) ≡ ok (record { seconds = s })
unfolding show_with
parse-show_with [] s h = parse-decimal s b's' 1 (unfold unit_seconds in refl) ∙ same (omega arith)
parse-show_with ((suf, mult) ∷ units) s h = elim (Bool-cases (s % mult == 0 && leb mult s)) [
  | inl e ↦
      rw e (parse-decimal (s / mult) suf mult h.0 ∙ same (exact_product s mult (ground arith)))
  | inr e ↦ rw e (parse-show_with units s h.1)
]

-- Every duration is parsed back from the text that `str` gives.
pub parse-show : (d : Duration) → parse (show d) ≡ ok d
unfolding show unit_seconds
parse-show d =
    parse-show_with ((b'd', 86400) ∷ (b'h', 3600) ∷ (b'm', 60) ∷ []) d.seconds
      (refl, (refl, (refl, tt)))
