-- ===== src/Prelude/Int.antt =====
-- Integers over the native numbers: Python's `int` where it can be negative.
use domain_watcher.Prelude.{ℕ, suc, ◌+◌, ◌-◌, ◌≡◌, Bool, arith, ltb, leb, if◌then◌else◌}

-- `negsuc n` is -(n + 1)
pub data ℤ : Type 0 where
  pos : ℕ → ℤ
  negsuc : ℕ → ℤ

abbrev pub pos_part : ℤ → ℕ
pos_part (pos n) = n
pos_part (negsuc _) = 0

abbrev pub neg_part : ℤ → ℕ
neg_part (pos _) = 0
neg_part (negsuc n) = suc n

-- the difference of two numbers
abbrev pub sub_ℕ : ℕ → ℕ → ℤ
sub_ℕ a b = if leb b a then pos (a - b) else negsuc (b - a - 1)

abbrev pub ltb_ℤ : ℤ → ℤ → Bool
ltb_ℤ a b = ltb (pos_part a + neg_part b) (pos_part b + neg_part a)

abbrev pub leb_ℤ : ℤ → ℤ → Bool
leb_ℤ a b = leb (pos_part a + neg_part b) (pos_part b + neg_part a)

-- A difference is at most a number exactly when the first is at most the sum of the other two.
pub leb-sub_ℕ : (a b k : ℕ) → leb_ℤ (sub_ℕ a b) (pos k) ≡ leb a (b + k)
leb-sub_ℕ a b k = ground arith

pub leb_pos-sub_ℕ : (a b k : ℕ) → leb_ℤ (pos k) (sub_ℕ a b) ≡ leb (b + k) a
leb_pos-sub_ℕ a b k = ground arith
