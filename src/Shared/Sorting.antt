-- ===== src/Shared/Sorting.antt =====
-- Python's `sorted`, by insertion, and the order of texts.
use domain_watcher.Prelude.{
  ◌≡◌, refl, Bool, true, false, ◌&&◌, ◌||◌, List, [], ◌∷◌, any, ltb, ◌==◌, nat_eq, arith,
  if◌then◌else◌,
}
use domain_watcher.Shared.Text.{Text}

-- `a <= b` on texts
unfoldable pub text_leb : Text → Text → Bool
text_leb [] t = true
text_leb (c ∷ s) [] = false
text_leb (c ∷ s) (d ∷ t) = ltb c d || c == d && text_leb s t

unfoldable pub put : Text → List Text → List Text
unfolding text_leb
put x [] = x ∷ []
put x (y ∷ ys) = let rest = put x ys in if text_leb x y then x ∷ y ∷ ys else y ∷ rest

-- `sorted(xs)`
unfoldable pub sorted : List Text → List Text
unfolding put
sorted [] = []
sorted (x ∷ xs) = put x (sorted xs)

any-put : (p : Text → Bool) (x : Text) (ys : List Text) → any p (put x ys) ≡ (p x || any p ys)
unfolding put any
any-put p x [] = refl
any-put p x (y ∷ ys) = ground (arith, any-put p x ys)

-- Sorting keeps the items.
pub any-sorted : (p : Text → Bool) (xs : List Text) → any p (sorted xs) ≡ any p xs
unfolding sorted any
any-sorted p [] = refl
any-sorted p (x ∷ xs) = rw (any-put p x (sorted xs), any-sorted p xs) refl
