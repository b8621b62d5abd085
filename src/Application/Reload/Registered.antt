-- ===== src/Application/Reload/Registered.antt =====
-- What `RegistrySubscriber.on_config_changed` leaves in the registry.
use domain_watcher.Application.Reload.{
  PluginSpec, RegistryHooks, by_id, missing_from, shared_with, add, update_one, reconcile,
  old_specs_of, registry_changed,
}
use domain_watcher.Dict
use domain_watcher.Dict.{Dict, keys, contains, get-insert}
use domain_watcher.Prelude.{Option, List, [], any, Eq, ◌==◌, nat_eq, list_eq, arith}
use domain_watcher.Shared.Text.{Text}
use mathlib.Core.Path.{subst}
use domain_watcher.Application.Reload.Instances.{
  Changes, Laws, Reconciled, After, After-bind, each-After,
}
use domain_watcher.Application.Reload.Steps.{
  Named, nil-Named, by_id-Named, any-missing_from, any-shared_with, Gone, BuiltAt, CarriedAt,
  CarriedAt-trans, combined, unregister-After, add-After, update_one-After,
}

module _ {Settings T R : Type 0} ⦃e : Eq Settings⦄ (hooks : RegistryHooks Settings T R) where
  open hooks use {instance_of, factory, register, unregister, replace, reload_hook}

  module _ (laws : Laws hooks) where
    module _ (old_specs new_specs : Dict Text (PluginSpec Settings)) (named : Named new_specs) where
      abbrev Added : Text → Option T → Option T → Type 0
      Added id b a = BuiltAt hooks (Dict.get new_specs id) a

      abbrev Common : Text → Option T → Option T → Type 0
      Common id b a = CarriedAt hooks (Dict.get old_specs id) (Dict.get new_specs id) b a

      abbrev Later : Text → Option T → Option T → Type 0
      Later id b a =
          (c : Option T) × Changes (any (λ j. j == id) (missing_from new_specs old_specs))
            (Added id) b c
          × Changes (any (λ j. j == id) (shared_with new_specs old_specs)) (Common id) c a

      reconcile-After :
          (r : R)
          → After hooks
              (λ id. Reconciled hooks (Dict.get old_specs id) (Dict.get new_specs id))
              r
              (reconcile hooks old_specs new_specs r).0
              (reconcile hooks old_specs new_specs r).1
      unfolding reconcile
      reconcile-After r =
          After-bind hooks {Q = Later} r _ _ _
            (each-After hooks (Gone hooks) unregister (missing_from old_specs new_specs)
              (λ id b c a h k. k) (λ x s m. unregister-After hooks laws x s) r)
            (λ s.
              After-bind hooks {W = Later} s _ _ _
                (each-After hooks Added (add hooks new_specs) (missing_from new_specs old_specs)
                  (λ id b c a h k. k)
                  (λ x t m.
                    add-After hooks laws old_specs new_specs named x t
                      (ground (arith, any-missing_from new_specs old_specs x)))
                  s)
                (λ t.
                  each-After hooks Common (update_one hooks old_specs new_specs)
                    (shared_with new_specs old_specs)
                    (λ id. CarriedAt-trans hooks (Dict.get old_specs id) (Dict.get new_specs id))
                    (λ x u m.
                      update_one-After hooks laws old_specs new_specs named x u
                        (ground (arith, any-shared_with new_specs old_specs x)))
                    t)
                (λ id b c a h k. (c, h, k)))
            (λ id b c a h k.
              combined hooks (Dict.get old_specs id) (Dict.get new_specs id) b c k.0 a
                (subst (λ hit. Changes hit (Gone hooks id) b c)
                  (any-missing_from old_specs new_specs id) h)
                (subst (λ hit. Changes hit (Added id) c k.0)
                  (any-missing_from new_specs old_specs id) k.1)
                (subst (λ hit. Changes hit (Common id) k.0 a)
                  (any-shared_with new_specs old_specs id) k.2))

    -- `RegistrySubscriber.on_config_changed` ends with the instance of every id so that an id without
    -- a spec in the new configuration has none, a new one the plugin that the factory built from its
    -- spec, one with an equal spec the instance that it had, and any other the plugin built from its
    -- new spec, or the instance that it had, where the type is the same and the reload hook returned
    -- true for it; an id of neither configuration keeps what it has. Otherwise it raises what one of
    -- its callables raised.
    pub registry_changed-After :
        {C : Type 0} (plugins_of : C → List (PluginSpec Settings)) (old : Option C) (new : C)
        (r : R)
        → After hooks
            (λ id.
              Reconciled hooks
                (Dict.get (old_specs_of hooks plugins_of old) id)
                (Dict.get (by_id (plugins_of new) []) id))
            r
            (registry_changed hooks plugins_of old new r).0
            (registry_changed hooks plugins_of old new r).1
    unfolding registry_changed
    registry_changed-After plugins_of old new r =
        reconcile-After (old_specs_of hooks plugins_of old) (by_id (plugins_of new) [])
          (by_id-Named (plugins_of new) [] nil-Named) r
