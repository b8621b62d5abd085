-- ===== src/Shared/Decimal.antt =====
-- `str(n)` and `int(s)` on the ASCII digits.
use mathlib.Core.Logic.{dite}
use mathlib.Core.WellFounded.{Acc}
use native.Mathlib.Decide.{dec_lt}
use domain_watcher.Prelude.Order.{lt_wf}
use domain_watcher.Prelude.{
  ℕ, ◌+◌, ◌-◌, ◌*◌, ◌/◌, ◌%◌, ◌<◌, ◌≡◌, refl, Bool, true, false, ◌&&◌, [], ◌∷◌, arith, leb,
  if◌then◌else◌, ◌==◌, nat_eq, Bool-cases, inl, inr, dite_ind,
}
use domain_watcher.Shared.Text.{Text, is_empty, is_space, drop_end, strip}

unfoldable pub is_digit : ℕ → Bool
is_digit c = leb b'0' c && leb c b'9'

-- the digits of a positive number, in front of a text
unfoldable pub emit : (n : ℕ) → Acc ◌<◌ n → Text → Text
emit n (Acc.intro _ smaller) out =
    dite (dec_lt 0 n) (λ h. emit (n / 10) (smaller (n / 10) (omega arith)) ((b'0' + n % 10) ∷ out))
      (λ _. out)

-- `str(n)`, in front of a text
unfoldable pub decimal : ℕ → Text → Text
unfolding emit lt_wf dec_lt
decimal n out = if n == 0 then b'0' ∷ out else emit n (lt_wf.apply n) out

-- the number that the leading digits stand for, after `n`, and what follows them
unfoldable pub read_digits : Text → ℕ → ℕ × Text
unfolding is_digit
read_digits [] n = (n, [])
read_digits (c ∷ s) n =
    let rest = read_digits s (n * 10 + (c - b'0')) in if is_digit c then rest else (n, c ∷ s)

read_digits-emit :
    (n : ℕ) (w : Acc ◌<◌ n) (out : Text) → read_digits (emit n w out) 0 ≡ read_digits out n
unfolding emit read_digits
read_digits-emit n (Acc.intro _ smaller) out = grind (
  arith,
  λ (p : n / 10 < n). read_digits-emit (n / 10) (smaller (n / 10) p) ((b'0' + n % 10) ∷ out),
)

-- Reading back what was printed gives the number, with any text behind it.
pub read_digits-decimal : (n : ℕ) (out : Text) → read_digits (decimal n out) 0 ≡ read_digits out n
unfolding decimal read_digits
read_digits-decimal n out = elim (Bool-cases (n == 0)) [
  | inl z ↦ rw z (ground arith)
  | inr p ↦ rw p (read_digits-emit n (lt_wf.apply n) out)
]

-- A text with no white space at its end, and not empty.
pub record IsTight (s : Text) : Type 0 where
  pub end : drop_end is_space s ≡ s
  pub inhabited : is_empty s ≡ false

pub cons-IsTight : (c : ℕ) {s : Text} → IsTight s → IsTight (c ∷ s)
unfolding drop_end
cons-IsTight c h = record { end = rw (h.end, h.inhabited) (ground arith); inhabited = refl }

-- Printed in front of such a text, a positive number starts with a digit and keeps the end.
emit-IsTight : (n : ℕ) (w : Acc ◌<◌ n) {out : Text} → IsTight out → IsTight (emit n w out)
unfolding emit
emit-IsTight n (Acc.intro _ smaller) h =
    dite_ind IsTight (dec_lt 0 n)
      (λ p. emit-IsTight (n / 10) (smaller (n / 10) (omega arith)) (cons-IsTight (b'0' + n % 10) h))
      (λ p. h)

-- The first code point of a text is a digit.
abbrev pub StartsWithDigit : Text → Type 0
StartsWithDigit [] = ⊥
StartsWithDigit (c ∷ s) = is_digit c ≡ true

emit-StartsWithDigit :
    (n : ℕ) (w : Acc ◌<◌ n) (out : Text)
    → (n ≡ 0 → StartsWithDigit out)
    → StartsWithDigit (emit n w out)
unfolding emit is_digit
emit-StartsWithDigit n (Acc.intro _ smaller) out h =
    dite_ind StartsWithDigit (dec_lt 0 n)
      (λ p.
        emit-StartsWithDigit (n / 10) (smaller (n / 10) (omega arith)) ((b'0' + n % 10) ∷ out)
          (λ _. ground arith))
      (λ p. h (omega arith))

pub decimal-IsTight : (n : ℕ) {out : Text} → IsTight out → IsTight (decimal n out)
unfolding decimal
decimal-IsTight n {out} h = elim (Bool-cases (n == 0)) [
  | inl z ↦ rw z (cons-IsTight b'0' h)
  | inr p ↦ rw p (emit-IsTight n (lt_wf.apply n) h)
]

pub decimal-StartsWithDigit : (n : ℕ) (out : Text) → StartsWithDigit (decimal n out)
unfolding decimal is_digit
decimal-StartsWithDigit n out = elim (Bool-cases (n == 0)) [
  | inl z ↦ rw z refl
  | inr p ↦ rw p (emit-StartsWithDigit n (lt_wf.apply n) out (λ z. absurd (ground arith)))
]

digit-is_space : (c : ℕ) → is_digit c ≡ true → is_space c ≡ false
unfolding is_digit is_space
digit-is_space c h = ground arith

-- Nothing is stripped off a text that starts with a digit and has a tight end.
pub strip_digits : (s : Text) → StartsWithDigit s → IsTight s → strip s ≡ s
unfolding strip
strip_digits [] h t = absurd h
strip_digits (c ∷ s) h t = rw (digit-is_space c h) t.end
