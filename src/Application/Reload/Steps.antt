-- ===== src/Application/Reload/Steps.antt =====
-- The loops of `RegistrySubscriber.on_config_changed`, one step at a time.
use domain_watcher.Application.Reload.{
  PluginSpec, RegistryHooks, same_spec, by_id, spec_at, missing_from, shared_with, replace_by,
  unless_kept, ask, carry_over, add, update_one,
}
use domain_watcher.Dict
use domain_watcher.Dict.{Dict, keys, contains, get-insert}
use domain_watcher.Prelude.{
  ◌≡◌, refl, Bool, true, false, not, ◌&&◌, Option, none, some, List, [], ◌∷◌, filter, any, Eq, ◌==◌,
  nat_eq, list_eq, if◌then◌else◌, inl, inr, Bool-cases, Option-cases, arith, eq_iff, is_some, ◌∙◌,
  sym,
}
use domain_watcher.Shared.Errors.{Result, Result-cases}
use domain_watcher.Shared.Sorting.{any-sorted}
use domain_watcher.Shared.Text.{Text}
use mathlib.Core.Path.{subst}
use domain_watcher.Application.Reload.Instances.{
  Changes, Changes-if, Laws, by_factory, by_register, by_unregister, by_replace, Built, Carried,
  untouched, rebuilt, absorbed, Reconciled, After,
}

-- A spec stands under its own id.
abbrev pub Named : {Settings : Type 0} → Dict Text (PluginSpec Settings) → Type 0
Named d = (id : Text) (p : PluginSpec _) → Dict.get d id ≡ some p → p.id ≡ id

pub by_id-Named :
    {Settings : Type 0} (ps : List (PluginSpec Settings)) (d : Dict Text (PluginSpec Settings))
    → Named d
    → Named (by_id ps d)
unfolding by_id
by_id-Named [] d h = h
by_id-Named (p ∷ ps) d h =
    by_id-Named ps (Dict.insert d p.id p)
      (λ id q e. ground (arith, get-insert d p.id id p, eq_iff p.id id, h id q))

pub nil-Named : {Settings : Type 0} → Named {Settings = Settings} []
unfolding Dict.get
nil-Named id p e = absurd (ground arith)

any-keys :
    {V : Type 0} (d : Dict Text V) (p : Text → Bool) (id : Text)
    → any (λ j. j == id) (filter p (keys d)) ≡ (contains d id && p id)
unfolding any filter Dict.get
any-keys [] p id = refl
any-keys ((j, v) ∷ d) p id = ground (arith, any-keys d p id, eq_iff j id)

pub any-missing_from :
    {V : Type 0} (a b : Dict Text V) (id : Text)
    → any (λ j. j == id) (missing_from a b) ≡ (contains a id && not (contains b id))
unfolding missing_from
any-missing_from a b id =
    rw (any-sorted (λ j. j == id) (filter (λ j. not (contains b j)) (keys a)))
      (any-keys a (λ j. not (contains b j)) id)

pub any-shared_with :
    {V : Type 0} (a b : Dict Text V) (id : Text)
    → any (λ j. j == id) (shared_with a b) ≡ (contains a id && contains b id)
unfolding shared_with
any-shared_with a b id =
    rw (any-sorted (λ j. j == id) (filter (λ j. contains b j) (keys a)))
      (any-keys a (λ j. contains b j) id)

module _ {Settings T R : Type 0} ⦃e : Eq Settings⦄ (hooks : RegistryHooks Settings T R) where
  open hooks use {instance_of, factory, register, unregister, replace, reload_hook}

  -- The steps of the three loops.
  abbrev pub Gone : Text → Option T → Option T → Type 0
  Gone id before after = after ≡ none

  abbrev pub BuiltAt : Option (PluginSpec Settings) → Option T → Type 0
  BuiltAt none after = ⊥
  BuiltAt (some new) after = Built hooks new after

  abbrev pub CarriedAt :
      Option (PluginSpec Settings) → Option (PluginSpec Settings) → Option T → Option T → Type 0
  CarriedAt (some old) (some new) before after = Carried hooks old new before after
  CarriedAt _ _ before after = ⊥

  Carried-trans :
      (old new : PluginSpec Settings) (b c a : Option T)
      → Carried hooks old new b c
      → Carried hooks old new c a
      → Carried hooks old new b a
  Carried-trans old new b c a h (rebuilt d q) = rebuilt d q
  Carried-trans old new b c a (untouched d p) (untouched g q) = untouched d (q ∙ p)
  Carried-trans old new b c a (rebuilt d (t, f, p)) (untouched g q) = rebuilt d (t, f, q ∙ p)
  Carried-trans old new b c a (absorbed d s hook t r i j k p) (untouched g q) =
      absorbed d s hook t r i j k (q ∙ p)
  Carried-trans old new b c a (untouched d p) (absorbed g s hook t r i j k q) =
      absorbed g s hook t r i (sym p ∙ j) k (q ∙ p)
  Carried-trans old new b c a (rebuilt d (u, f, p)) (absorbed g s hook t r i j k q) =
      rebuilt d (u, f, q ∙ p)
  Carried-trans old new b c a (absorbed d s hook t r i j k p)
        (absorbed g l hook' t' r' i' j' k' q) =
      absorbed d s hook t r i j k (q ∙ p)

  pub CarriedAt-trans :
      (o n : Option (PluginSpec Settings)) (b c a : Option T)
      → CarriedAt o n b c
      → CarriedAt o n c a
      → CarriedAt o n b a
  CarriedAt-trans (some old) (some new) b c a h k = Carried-trans old new b c a h k
  CarriedAt-trans none n b c a h k = h
  CarriedAt-trans (some old) none b c a h k = h

  -- The three loops in turn.
  pub combined :
      (o n : Option (PluginSpec Settings)) (b c d a : Option T)
      → Changes (is_some o && not (is_some n)) (λ x y. y ≡ none) b c
      → Changes (is_some n && not (is_some o)) (λ x y. BuiltAt n y) c d
      → Changes (is_some n && is_some o) (CarriedAt o n) d a
      → Reconciled hooks o n b a
  combined none none b c d a h i j = j ∙ (i ∙ h)
  combined (some o) none b c d a h i j = j ∙ (i ∙ h)
  combined none (some n) b c d a h (t, f, i) j = (t, f, j ∙ i)
  combined (some o) (some n) b c d a h i j = rw (← h, ← i) j

  module _ (laws : Laws hooks) where
    pub unregister-After :
        (x : Text) (r : R)
        → After hooks (λ id. Changes (x == id) (Gone id)) r (unregister x r).0 (unregister x r).1
    unregister-After x r = elim (Result-cases (unregister x r).0) [
      | inl (u, e) ↦ rw e (λ id.
          Changes-if (x == id) (Gone id) (instance_of id r) none _ (laws.unregistered x r e id)
            (λ h. refl))
      | inr (z, e) ↦ rw e (by_unregister x r e)
    ]

    module _ (old_specs new_specs : Dict Text (PluginSpec Settings)) (named : Named new_specs) where
      pub add-After :
          (x : Text) (r : R)
          → contains new_specs x ≡ true
          → After hooks
              (λ id. Changes (x == id) (λ b a. BuiltAt (Dict.get new_specs id) a))
              r
              (add hooks new_specs x r).0
              (add hooks new_specs x r).1
      unfolding add spec_at
      add-After x r h = elim (Option-cases (Dict.get new_specs x)) [
        | inl e ↦ absurd (ground arith)
        | inr (p, e) ↦
            rw (e, spec_at)
              (elim (Result-cases (factory p)) [
                | inl (t, f) ↦ rw f (elim (Result-cases (register t r).0) [
                  | inl (u, g) ↦ rw g (λ id.
                      Changes-if (x == id) _ (instance_of id r) (some t) _
                        (subst
                          (λ i.
                            instance_of id (register t r).1
                            ≡ (if i == id then some t else instance_of id r))
                          (named x p e) (laws.registered p t r f g id))
                        (λ same. rw (← (eq_iff x id).0 same, e) (t, f, refl)))
                  | inr (z, g) ↦ rw g (by_register t r g)
                ])
                | inr (z, f) ↦ rw f (by_factory p f)
              ])
      ]

      replace_by-After :
          (old new : PluginSpec Settings) (x : Text) (r s : R)
          → Dict.get old_specs x ≡ some old
          → Dict.get new_specs x ≡ some new
          → same_spec old new ≡ false
          → ((id : Text) → instance_of id s ≡ instance_of id r)
          → After hooks
              (λ id. Changes (x == id) (CarriedAt (Dict.get old_specs id) (Dict.get new_specs id)))
              r
              (replace_by hooks new x s).0
              (replace_by hooks new x s).1
      unfolding replace_by
      replace_by-After old new x r s o n d k = elim (Result-cases (factory new)) [
        | inl (t, f) ↦ rw f (elim (Result-cases (replace x t s).0) [
          | inl (u, g) ↦ rw g (λ id.
              Changes-if (x == id) _ (instance_of id r) (some t) _
                (rw (← k id) (laws.replaced x t s g id))
                (λ same. rw (← (eq_iff x id).0 same, o, n) (rebuilt d (t, f, refl))))
          | inr (z, g) ↦ rw g (by_replace x t s g)
        ])
        | inr (z, f) ↦ rw f (by_factory new f)
      ]

      -- The pair of specs that an id has, and how its instance is carried over.
      ask-After :
          (old new : PluginSpec Settings) (x : Text) (r : R)
          (hook : Option (T → Settings → R → Result Bool × R)) (current : Option T)
          → Dict.get old_specs x ≡ some old
          → Dict.get new_specs x ≡ some new
          → same_spec old new ≡ false
          → (old.type == new.type) ≡ true
          → reload_hook ≡ hook
          → instance_of x r ≡ current
          → After hooks
              (λ id. Changes (x == id) (CarriedAt (Dict.get old_specs id) (Dict.get new_specs id)))
              r
              (ask hooks hook current new x r).0
              (ask hooks hook current new x r).1
      unfolding ask unless_kept
      ask-After old new x r none current o n d s h c =
          replace_by-After old new x r r o n d (λ id. refl)
      ask-After old new x r (some hook) none o n d s h c =
          replace_by-After old new x r r o n d (λ id. refl)
      ask-After old new x r (some hook) (some t) o n d s h c =
          let left = laws.reloaded hook t new.settings r h in
          let replacing = replace_by-After old new x r (hook t new.settings r).1 o n d left in
          elim (Result-cases (hook t new.settings r).0) [
            | inl (true, k) ↦ rw k (λ id. elim (Bool-cases (x == id)) [
              | inl same ↦
                  rw (same, ← (eq_iff x id).0 same, o, n) (absorbed d s hook t r h c k (left x))
              | inr other ↦ rw other (left id)
            ])
            | inl (false, k) ↦ rw k replacing
            | inr (z, k) ↦ rw k replacing
          ]

      pub update_one-After :
          (x : Text) (r : R)
          → (contains new_specs x && contains old_specs x) ≡ true
          → After hooks
              (λ id. Changes (x == id) (CarriedAt (Dict.get old_specs id) (Dict.get new_specs id)))
              r
              (update_one hooks old_specs new_specs x r).0
              (update_one hooks old_specs new_specs x r).1
      unfolding update_one spec_at carry_over
      update_one-After x r h = elim (Option-cases (Dict.get old_specs x)) [
        | inl e ↦ absurd (ground (arith, e))
        | inr (p, o) ↦
            rw (o, spec_at)
              (elim (Option-cases (Dict.get new_specs x)) [
                | inl e ↦ absurd (ground (arith, e))
                | inr (q, n) ↦
                    rw (n, spec_at)
                      (elim (Bool-cases (same_spec p q)) [
                        | inl d ↦ rw d (λ id. elim (Bool-cases (x == id)) [
                          | inl same ↦ rw (same, ← (eq_iff x id).0 same, o, n) (untouched d refl)
                          | inr other ↦ rw other refl
                        ])
                        | inr d ↦ rw d (elim (Bool-cases (p.type == q.type)) [
                          | inl s ↦
                              rw s
                                (ask-After p q x r reload_hook (instance_of x r) o n d s refl refl)
                          | inr s ↦ rw s (replace_by-After p q x r r o n d (λ id. refl))
                        ])
                      ])
              ])
      ]
