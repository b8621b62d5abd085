-- ===== src/Shared/Duration.antt =====
-- `Duration` of core/shared/value_objects.py: a number of whole seconds that is not negative, its
-- parser and its printer. The digits of `parse` are the ASCII ones.
pub mod RoundTrip
use domain_watcher.Prelude.Int.{ℤ, pos, negsuc}
use domain_watcher.Prelude.{
  ℕ, suc, ◌-◌, ◌*◌, ◌/◌, ◌%◌, Bool, ◌&&◌, List, [], ◌∷◌, Option, none, some, leb, if◌then◌else◌,
  ◌==◌, nat_eq,
}
use domain_watcher.Shared.Decimal.{is_digit, decimal, read_digits}
use domain_watcher.Shared.Errors.{Result, ok, raise, value_error}
use domain_watcher.Shared.Text.{Text, strip}
use domain_watcher.Shared.Time.{TimeDelta, second}

pub record Duration : Type 0 where
  pub seconds : ℕ

-- `Duration(seconds=n)`, with `__post_init__`
unfoldable pub make : ℤ → Result Duration
make (pos n) = ok (record { seconds = n })
make (negsuc n) = raise value_error

-- `n * k`
unfoldable pub times : ℤ → ℕ → ℤ
times (pos n) k = pos (n * k)
times (negsuc n) k = if k == 0 then pos 0 else negsuc (suc n * k - 1)

unfoldable pub from_seconds : ℤ → Result Duration
unfolding make
from_seconds n = make n

unfoldable pub minutes : ℤ → Result Duration
unfolding make times
minutes n = make (times n 60)

unfoldable pub hours : ℤ → Result Duration
unfolding make times
hours n = make (times n 3600)

unfoldable pub days : ℤ → Result Duration
unfolding make times
days n = make (times n 86400)

-- a constant of the program, such as `Duration.days(30)`
abbrev pub of_days : ℕ → Duration
of_days n = record { seconds = n * 86400 }

abbrev pub as_timedelta : Duration → TimeDelta
as_timedelta d = pos (d.seconds * second)

-- `_UNIT_SECONDS`
unfoldable pub unit_seconds : ℕ → Option ℕ
unit_seconds u =
    if u == b's'
    then some 1
    else if u == b'm'
    then some 60
    else if u == b'h'
    then some 3600
    else if u == b'd'
    then some 86400
    else none

-- what `_DURATION_RE` leaves after the digits: the unit, and nothing else
unfoldable pub with_unit : ℕ → Text → Result Duration
unfolding make unit_seconds
with_unit n (u ∷ []) = elim (unit_seconds u) [
  | some k ↦ make (pos (n * k))
  | none ↦ raise value_error
]
with_unit n _ = raise value_error

-- `_DURATION_RE.match(v)`: one digit at least
unfoldable pub match_duration : Text → Result Duration
unfolding with_unit read_digits is_digit
match_duration [] = raise value_error
match_duration (c ∷ s) =
    let (n, rest) = read_digits (c ∷ s) 0 in
    if is_digit c then with_unit n rest else raise value_error

-- `Duration.parse`
unfoldable pub parse : Text → Result Duration
unfolding match_duration strip
parse s = match_duration (strip s)

-- the loop of `__str__` over the units, largest first
unfoldable pub show_with : List (ℕ × ℕ) → ℕ → Text
unfolding decimal
show_with [] s = decimal s (b's' ∷ [])
show_with ((suf, mult) ∷ units) s =
    let rest = show_with units s in
    if s % mult == 0 && leb mult s then decimal (s / mult) (suf ∷ []) else rest

-- `str(duration)`
unfoldable pub show : Duration → Text
unfolding show_with
show d = show_with ((b'd', 86400) ∷ (b'h', 3600) ∷ (b'm', 60) ∷ []) d.seconds
