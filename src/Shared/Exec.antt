-- ===== src/Shared/Exec.antt =====
-- A coroutine or method that changes shared state `S` and may raise. What was written before a
-- raise stays written, so the state comes back beside the exception too.
use domain_watcher.Shared.Errors.{Error, Result, ok, raise}

abbrev pub Exec : Type 0 → Type 0 → Type 0
Exec S A = S → Result A × S

module _ {S A : Type 0} where
  abbrev pub pure : A → Exec S A
  pure a s = (ok a, s)

  abbrev pub throw : Error → Exec S A
  throw e s = (raise e, s)

  abbrev pub lift : Result A → Exec S A
  lift r s = (r, s)

abbrev pub continue : {S A B : Type 0} → Result A → (A → Exec S B) → Exec S B
continue (ok a) f s = f a s
continue (raise e) f s = (raise e, s)

infixl 5 ◌>>=◌ ◌>>◌
abbrev pub ◌>>=◌ : {S A B : Type 0} → Exec S A → (A → Exec S B) → Exec S B
◌>>=◌ m f s = let (r, s') = m s in continue r f s'

abbrev pub ◌>>◌ : {S B : Type 0} → Exec S (Unit {0}) → Exec S B → Exec S B
m >> k = m >>= λ _. k

abbrev pub settle : {S A B : Type 0} → Result A → (A → Exec S B) → (Error → Exec S B) → Exec S B
settle (ok a) f h s = f a s
settle (raise e) f h s = h e s

-- `try: x = m` with `except … as exc: handler` and `else: rest`
abbrev pub try : {S A B : Type 0} → Exec S A → (Error → Exec S B) → (A → Exec S B) → Exec S B
try m h f s = let (r, s') = m s in settle r f h s'
