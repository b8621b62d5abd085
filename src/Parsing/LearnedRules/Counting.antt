-- ===== src/Parsing/LearnedRules/Counting.antt =====
-- Entries of a dict that pass a test, and keys that are below a bound.
use domain_watcher.Dict
use domain_watcher.Dict.{Dict, values, get-insert}
use domain_watcher.Prelude.{
  ℕ, ◌+◌, ◌≤◌, ◌<◌, ◌≡◌, refl, Bool, true, false, none, some, [], ◌∷◌, any, nat_eq, list_eq,
  if◌then◌else◌, arith, All, eq_iff,
}

-- how many entries pass a test
unfoldable pub count : {V : Type 0} → (V → Bool) → Dict ℕ V → ℕ
count p [] = 0
count p ((i, v) ∷ d) = (if p v then 1 else 0) + count p d

module _ {V : Type 0} where
  pub count-none : (p : V → Bool) (d : Dict ℕ V) → any p (values d) ≡ false → count p d ≡ 0
  unfolding count any
  count-none p [] h = refl
  count-none p ((i, v) ∷ d) h = ground (arith, count-none p d)

  pub absent : (n : ℕ) (d : Dict ℕ V) → All (λ e. e.0 < n) d → Dict.get d n ≡ none
  unfolding Dict.get
  absent n [] h = refl
  absent n ((i, v) ∷ d) (a, h) = ground (arith, absent n d h, eq_iff i n)

  pub count-insert_new :
      (p : V → Bool) (d : Dict ℕ V) (n : ℕ) (v : V)
      → Dict.get d n ≡ none
      → count p (Dict.insert d n v) ≡ count p d + (if p v then 1 else 0)
  unfolding count Dict.get Dict.insert
  count-insert_new p [] n v h = omega arith
  count-insert_new p ((i, q) ∷ d) n v h = ground (arith, count-insert_new p d n v)

  pub count-insert_old :
      (p : V → Bool) (d : Dict ℕ V) (n : ℕ) (q v : V)
      → Dict.get d n ≡ some q
      → (p v ≡ true → p q ≡ true)
      → count p (Dict.insert d n v) ≤ count p d
  unfolding count Dict.get Dict.insert
  count-insert_old p [] n q v h f = ground arith
  count-insert_old p ((i, u) ∷ d) n q v h f = ground (arith, count-insert_old p d n q v)

  pub below-insert :
      (m n : ℕ) (d : Dict ℕ V) (v : V)
      → n < m
      → All (λ e. e.0 < m) d
      → All (λ e. e.0 < m) (Dict.insert d n v)
  unfolding Dict.insert
  below-insert m n [] v b h = (b, tt)
  below-insert m n ((i, u) ∷ d) v b (a, h) = ground (arith, below-insert m n d v b h)

  pub below-suc : (m : ℕ) (d : Dict ℕ V) → All (λ e. e.0 < m) d → All (λ e. e.0 < m + 1) d
  below-suc m [] h = tt
  below-suc m ((i, v) ∷ d) (a, h) = (omega arith, below-suc m d h)

  pub below-get :
      (m n : ℕ) (d : Dict ℕ V) (v : V) → Dict.get d n ≡ some v → All (λ e. e.0 < m) d → n < m
  unfolding Dict.get
  below-get m n [] v h b = ground arith
  below-get m n ((i, u) ∷ d) v h (a, b) = ground (arith, below-get m n d v, eq_iff i n)
