-- ===== src/Application/Reload/Instances.antt =====
-- The instances of plugins before and after a run of the loops of `RegistrySubscriber`.
use domain_watcher.Application.Reload.{PluginSpec, RegistryHooks, same_spec, each}
use domain_watcher.Prelude.{
  ◌≡◌, refl, Bool, true, false, ◌||◌, Option, none, some, List, [], ◌∷◌, any, Eq, ◌==◌, nat_eq,
  list_eq, if◌then◌else◌, arith, eq_refl, ◌∙◌,
}
use domain_watcher.Shared.Errors.{Error, Result, ok, raise}
use domain_watcher.Shared.Exec.{Exec, continue}
use domain_watcher.Shared.Text.{Text}

-- An instance that is changed, or not.
abbrev pub Changes : {A : Type 0} → Bool → (A → A → Type 0) → A → A → Type 0
Changes true S b a = S b a
Changes false S b a = a ≡ b

pub Changes-both :
    {A : Type 0} (x y : Bool) (S : A → A → Type 0) (b c a : A)
    → ((b c a : A) → S b c → S c a → S b a)
    → Changes x S b c
    → Changes y S c a
    → Changes (x || y) S b a
Changes-both true true S b c a t h k = t b c a h k
Changes-both true false S b c a t h k = rw k h
Changes-both false true S b c a t h k = rw (← h) k
Changes-both false false S b c a t h k = k ∙ h

pub Changes-if :
    {A : Type 0} (hit : Bool) (S : A → A → Type 0) (b c a : A)
    → a ≡ (if hit then c else b)
    → (hit ≡ true → S b c)
    → Changes hit S b a
Changes-if true S b c a e h = rw e (h refl)
Changes-if false S b c a e h = e

module _ {Settings T R : Type 0} ⦃e : Eq Settings⦄ (hooks : RegistryHooks Settings T R) where
  open hooks use {instance_of, factory, register, unregister, replace, reload_hook}

  -- What the callables do to the instances, where they do not raise.
  pub record Laws : Type 0 where
    pub registered :
        (spec : PluginSpec Settings) (plugin : T) (r : R)
        → factory spec ≡ ok plugin
        → (register plugin r).0 ≡ ok tt
        → (id : Text)
        → instance_of id (register plugin r).1
          ≡ (if spec.id == id then some plugin else instance_of id r)
    pub unregistered :
        (j : Text) (r : R)
        → (unregister j r).0 ≡ ok tt
        → (id : Text)
        → instance_of id (unregister j r).1 ≡ (if j == id then none else instance_of id r)
    pub replaced :
        (j : Text) (plugin : T) (r : R)
        → (replace j plugin r).0 ≡ ok tt
        → (id : Text)
        → instance_of id (replace j plugin r).1
          ≡ (if j == id then some plugin else instance_of id r)
    pub reloaded :
        (hook : T → Settings → R → Result Bool × R) (plugin : T) (settings : Settings) (r : R)
        → reload_hook ≡ some hook
        → (id : Text) → instance_of id (hook plugin settings r).1 ≡ instance_of id r

  -- An exception of one of the callables.
  pub data Raised (x : Error) : Type 0 where
    by_factory : (spec : PluginSpec Settings) → factory spec ≡ raise x → Raised x
    by_register : (plugin : T) (r : R) → (register plugin r).0 ≡ raise x → Raised x
    by_unregister : (id : Text) (r : R) → (unregister id r).0 ≡ raise x → Raised x
    by_replace : (id : Text) (plugin : T) (r : R) → (replace id plugin r).0 ≡ raise x → Raised x

  -- The plugin that was built from the new spec.
  abbrev pub Built : PluginSpec Settings → Option T → Type 0
  Built new after = (plugin : T) × (factory new ≡ ok plugin) × (after ≡ some plugin)

  -- The instance of a spec that both configurations have.
  pub data Carried (old new : PluginSpec Settings) (before after : Option T) : Type 0 where
    untouched : same_spec old new ≡ true → after ≡ before → Carried old new before after
    rebuilt : same_spec old new ≡ false → Built new after → Carried old new before after
    absorbed :
        same_spec old new ≡ false
        → (old.type == new.type) ≡ true
        → (hook : T → Settings → R → Result Bool × R) (plugin : T) (r : R) → reload_hook ≡ some hook
        → before ≡ some plugin
        → (hook plugin new.settings r).0 ≡ ok true
        → after ≡ before
        → Carried old new before after

  -- The instance of an id before and after, by the id's specs in the old and the new configuration.
  abbrev pub Reconciled :
      Option (PluginSpec Settings) → Option (PluginSpec Settings) → Option T → Option T → Type 0
  Reconciled none none before after = after ≡ before
  Reconciled (some old) none before after = after ≡ none
  Reconciled none (some new) before after = Built new after
  Reconciled (some old) (some new) before after = Carried old new before after

  -- A run that began at `r`: it ends with each instance so changed, or a callable raised.
  abbrev pub After : (Text → Option T → Option T → Type 0) → R → Result (Unit {0}) → R → Type 0
  After P r (ok u) s = (id : Text) → P id (instance_of id r) (instance_of id s)
  After P r (raise x) s = Raised x

  pub After-bind :
      {P Q W : Text → Option T → Option T → Type 0} (r : R) (res : Result (Unit {0})) (s : R)
      (k : Exec R (Unit {0}))
      → After P r res s
      → ((t : R) → After Q t (k t).0 (k t).1)
      → ((id : Text) (b c a : Option T) → P id b c → Q id c a → W id b a)
      → After W r (continue res (λ _. k) s).0 (continue res (λ _. k) s).1
  After-bind {Q = Q} {W = W} r (ok u) s k h g join = go (k s).0 (g s)
    where
      go : (res : Result (Unit {0})) → After Q s res (k s).1 → After W r res (k s).1
      go (ok u) q = λ id. join id _ _ _ (h id) (q id)
      go (raise x) q = q
  After-bind r (raise x) s k h g join = h

  pub each-After :
      (S : Text → Option T → Option T → Type 0) (f : Text → Exec R (Unit {0})) (ids : List Text)
      → ((id : Text) (b c a : Option T) → S id b c → S id c a → S id b a)
      → ((x : Text) (r : R)
          → any (λ j. j == x) ids ≡ true
          → After (λ id. Changes (x == id) (S id)) r (f x r).0 (f x r).1)
      → (r : R)
      → After (λ id. Changes (any (λ j. j == id) ids) (S id)) r (each ids f r).0 (each ids f r).1
  unfolding each any
  each-After S f [] trans step r = λ id. refl
  each-After S f (x ∷ xs) trans step r =
      After-bind r (f x r).0 (f x r).1 (each xs f) (step x r (ground (arith, eq_refl x)))
        (each-After S f xs trans (λ y t h. step y t (ground arith)))
        (λ id b c a. Changes-both (x == id) (any (λ j. j == id) xs) (S id) b c a (trans id))
