-- ===== src/Tests/Reloaded.antt =====
-- A reload of three plugins, and updates of a holder whose subscribers raise.
use domain_watcher.Application.Reload.Instances.{Laws, After, Reconciled}
use domain_watcher.Application.Reload.Registered.{registry_changed-After}
use domain_watcher.Application.Reload.Updates.{updates, acted, updates-acted}
use domain_watcher.Application.Reload.{
  PluginSpec, RegistryHooks, Subscriber, by_id, old_specs_of, registry_changed,
}
use domain_watcher.Dict
use domain_watcher.Dict.{Dict, get-insert, get-remove}
use domain_watcher.Prelude.{
  ap, Bool, ℕ, ◌+◌, ◌≡◌, refl, none, some, List, [], ◌∷◌, ◌++◌, ◌==◌, nat_eq, list_eq, arith,
}
use domain_watcher.Shared.Errors.{Result, ok, raise, value_error}
use domain_watcher.Shared.Text.{Text}

abbrev Plugins : Type 0
Plugins = Dict Text (PluginSpec ℕ)

abbrev absorb : PluginSpec ℕ → ℕ → Plugins → Result Bool × Plugins
absorb plugin settings plugins = (ok (settings == 1), plugins)

-- A registry whose plugins are their specs, and take new settings only if these are 1.
abbrev hooks : RegistryHooks ℕ (PluginSpec ℕ) Plugins
hooks = record {
  instance_of = λ id plugins. Dict.get plugins id;
  factory = λ spec. ok spec;
  register = λ plugin plugins. (ok tt, Dict.insert plugins plugin.id plugin);
  unregister = λ id plugins. (ok tt, Dict.remove plugins id);
  replace = λ id plugin plugins. (ok tt, Dict.insert plugins id plugin);
  reload_hook = some absorb;
}

hooks-Laws : Laws hooks
hooks-Laws = record {
  registered = λ spec plugin plugins built done id.
      let same : plugin ≡ spec = ground arith in rw same (get-insert plugins spec.id id spec);
  unregistered = λ j plugins done id. get-remove plugins j id;
  replaced = λ j plugin plugins done id. get-insert plugins j id plugin;
  reloaded = λ hook plugin settings plugins given id.
      let same : absorb ≡ hook = ap (λ o. elim o [ none ↦ absorb | some h ↦ h ]) given in
      rw (← same) refl;
}

abbrev plugin : ℕ → ℕ → ℕ → PluginSpec ℕ
plugin id type settings = record { id = id ∷ []; type = type ∷ []; settings = settings }

abbrev old_plugins : List (PluginSpec ℕ)
old_plugins = plugin b'a' b't' 0 ∷ plugin b'b' b't' 0 ∷ plugin b'c' b't' 0 ∷ []

abbrev new_plugins : List (PluginSpec ℕ)
new_plugins = plugin b'b' b't' 1 ∷ plugin b'c' b'u' 0 ∷ plugin b'd' b't' 0 ∷ []

abbrev registry : Plugins
registry = by_id old_plugins []

registry_changed-After_example :
    After hooks
      (λ id.
        Reconciled hooks
          (Dict.get (old_specs_of hooks (λ c. c) (some old_plugins)) id)
          (Dict.get (by_id new_plugins []) id))
      registry
      (registry_changed hooks (λ c. c) (some old_plugins) new_plugins registry).0
      (registry_changed hooks (λ c. c) (some old_plugins) new_plugins registry).1
registry_changed-After_example =
    registry_changed-After hooks hooks-Laws (λ c. c) (some old_plugins) new_plugins registry

abbrev failing : Subscriber ℕ (ℕ × ℕ)
failing old new r = (raise value_error, (r.0, r.1 + 1))

abbrev counting : Subscriber ℕ (ℕ × ℕ)
counting old new r = (ok tt, (r.0 + new, r.1))

updates-acted_example :
    (updates {R = ℕ × ℕ}
      (4 ∷ 5 ∷ [])
      (record { current = none; subscribers = (failing ∷ []) ++ (counting ∷ failing ∷ []) })
      (1, 0)).1.0
    ≡ acted (λ old new n. n + new) (4 ∷ 5 ∷ []) none 1
updates-acted_example =
    updates-acted {R = ℕ × ℕ} (λ r. r.0) (λ old new n. n + new) (failing ∷ []) (failing ∷ [])
      counting (4 ∷ 5 ∷ []) none (1, 0) ((λ old new r. refl), tt) (λ old new r. refl)
      ((λ old new r. refl), tt)
