-- ===== src/Shared/Gives.antt =====
-- A property of the value of a result, proved along the `do` block that gives it.
use domain_watcher.Prelude.{◌≡◌, refl, Bool, true, false, arith}
use mathlib.Core.Path.{subst}
use domain_watcher.Shared.Errors.{Error, Result, ok, raise, raise_if, ◌>>=◌, ◌>>◌}

pub data Gives {A : Type 0} (P : A → Type 0) : Result A → Type 0 where
  value : {a : A} → P a → Gives P (ok a)
  nothing : {e : Error} → Gives P (raise e)

pub raise_if-Gives :
    {A : Type 0} {P : A → Type 0} (test : Bool) (e : Error) (rest : Result A)
    → (test ≡ false → Gives P rest)
    → Gives P (raise_if test e >> rest)
raise_if-Gives true e rest h = nothing
raise_if-Gives false e rest h = h refl

pub bind-Gives :
    {A B : Type 0} {P : A → Type 0} {Q : B → Type 0} (m : Result A) (f : A → Result B)
    → Gives P m
    → ((a : A) → P a → Gives Q (f a))
    → Gives Q (m >>= f)
bind-Gives (ok a) f (value p) h = h a p
bind-Gives (raise e) f p h = nothing

pub own-Gives : {A : Type 0} (m : Result A) → Gives (λ a. m ≡ ok a) m
own-Gives (ok a) = value refl
own-Gives (raise e) = nothing

pub of-Gives : {A : Type 0} {P : A → Type 0} (r : Result A) (a : A) → Gives P r → r ≡ ok a → P a
of-Gives {P = P} r a h e = unwrap (subst (Gives P) e h)
  where
    unwrap : Gives P (ok a) → P a
    unwrap (value p) = p

pub value_not_raised : {A B : Type 0} {a : A} {e : Error} → ok a ≡ raise e → B
value_not_raised h = absurd (ground arith)
