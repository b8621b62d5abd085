-- ===== src/Application/Reload.antt =====
-- application/use_cases/reload_config.py: `ConfigHolder`, and the subscribers that carry a new
-- configuration over to the registries, the scheduler and the parsing rules. `C` stands for the
-- configuration, `Settings` for the settings of a plugin, `T` for the plugins and `R` for the state
-- that the callables of a subscriber change.
pub mod Instances
pub mod Steps
pub mod Registered
pub mod Updates
use domain_watcher.Application.Scheduling
use domain_watcher.Application.Scheduling.{Jobs}
use domain_watcher.Dict
use domain_watcher.Dict.{Dict, keys, contains}
use domain_watcher.Monitoring.{MonitoredDomain}
use domain_watcher.Prelude.{
  Bool, true, false, not, ◌&&◌, Option, none, some, List, [], ◌∷◌, ◌++◌, filter, Eq, ◌==◌, nat_eq,
  list_eq, if◌then◌else◌,
}
use domain_watcher.Shared.Errors.{Error, Result, ok, raise, key_error}
use domain_watcher.Shared.Exec.{Exec, pure, throw, lift, continue, ◌>>=◌, ◌>>◌}
use domain_watcher.Shared.Sorting.{sorted}
use domain_watcher.Shared.Text.{Text}

pub record PluginSpec (Settings : Type 0) : Type 0 where
  pub id : Text
  pub type : Text
  pub settings : Settings

module _ {Settings : Type 0} ⦃e : Eq Settings⦄ where
  -- `PluginSpec.__eq__`
  abbrev pub same_spec : PluginSpec Settings → PluginSpec Settings → Bool
  same_spec a b = a.id == b.id && (a.type == b.type && a.settings == b.settings)

-- The callables that `RegistrySubscriber` is given.
pub record RegistryHooks (Settings T R : Type 0) : Type 0 where
  pub instance_of : Text → R → Option T
  pub factory : PluginSpec Settings → Result T
  pub register : T → R → Result (Unit {0}) × R
  pub unregister : Text → R → Result (Unit {0}) × R
  pub replace : Text → T → R → Result (Unit {0}) × R
  pub reload_hook : Option (T → Settings → R → Result Bool × R)

-- `{p.id: p for p in …}`, and `{}` where there is no old configuration
unfoldable pub by_id :
    {Settings : Type 0}
    → List (PluginSpec Settings)
    → Dict Text (PluginSpec Settings)
    → Dict Text (PluginSpec Settings)
by_id [] d = d
by_id (p ∷ ps) d = by_id ps (Dict.insert d p.id p)

-- `d[id]`
unfoldable pub spec_at :
    {Settings : Type 0} → Dict Text (PluginSpec Settings) → Text → Result (PluginSpec Settings)
spec_at d id = elim (Dict.get d id) [ none ↦ raise key_error | some p ↦ ok p ]

-- `sorted(a.keys() - b.keys())` and `sorted(a.keys() & b.keys())`
unfoldable pub missing_from : {V : Type 0} → Dict Text V → Dict Text V → List Text
missing_from a b = sorted (filter (λ id. not (contains b id)) (keys a))

unfoldable pub shared_with : {V : Type 0} → Dict Text V → Dict Text V → List Text
shared_with a b = sorted (filter (λ id. contains b id) (keys a))

-- `for id in ids: f(id)`
unfoldable pub each : {R : Type 0} → List Text → (Text → Exec R (Unit {0})) → Exec R (Unit {0})
each [] f = pure tt
each (id ∷ ids) f = f id >> each ids f

module _ {Settings T R : Type 0} ⦃e : Eq Settings⦄ (hooks : RegistryHooks Settings T R) where
  open hooks use {instance_of, factory, register, unregister, replace, reload_hook}

  -- `self.replace(plugin_id, self.factory(new_spec))`
  unfoldable pub replace_by : PluginSpec Settings → Text → Exec R (Unit {0})
  replace_by spec id = lift (factory spec) >>= λ plugin. replace id plugin

  -- what follows the hook, which keeps the instance only if it returned true
  unfoldable pub unless_kept : PluginSpec Settings → Text → Result Bool → Exec R (Unit {0})
  unfolding replace_by
  unless_kept spec id (ok true) = pure tt
  unless_kept spec id (ok false) = replace_by spec id
  unless_kept spec id (raise x) = replace_by spec id

  -- the hook on the instance
  unfoldable pub ask :
      Option (T → Settings → R → Result Bool × R)
      → Option T
      → PluginSpec Settings
      → Text
      → Exec R (Unit {0})
  unfolding unless_kept
  ask (some hook) (some current) spec id r =
      let (kept, s) = hook current spec.settings r in unless_kept spec id kept s
  ask _ _ spec id r = replace_by spec id r

  -- the part of the last loop behind the two lookups
  unfoldable pub carry_over : PluginSpec Settings → PluginSpec Settings → Text → Exec R (Unit {0})
  unfolding ask
  carry_over old_spec new_spec id r =
      if same_spec old_spec new_spec
      then pure tt r
      else if not (old_spec.type == new_spec.type)
      then replace_by new_spec id r
      else ask reload_hook (instance_of id r) new_spec id r

  -- the bodies of the loops over the added and the common ids
  unfoldable pub add : Dict Text (PluginSpec Settings) → Text → Exec R (Unit {0})
  unfolding spec_at
  add new_specs id = do
    spec ← lift (spec_at new_specs id)
    plugin ← lift (factory spec)
    register plugin

  unfoldable pub update_one :
      Dict Text (PluginSpec Settings) → Dict Text (PluginSpec Settings) → Text → Exec R (Unit {0})
  unfolding spec_at carry_over
  update_one old_specs new_specs id = do
    old_spec ← lift (spec_at old_specs id)
    new_spec ← lift (spec_at new_specs id)
    carry_over old_spec new_spec id

  unfoldable pub reconcile :
      Dict Text (PluginSpec Settings) → Dict Text (PluginSpec Settings) → Exec R (Unit {0})
  unfolding each missing_from shared_with add update_one
  reconcile old_specs new_specs = do
    each (missing_from old_specs new_specs) unregister
    each (missing_from new_specs old_specs) (add new_specs)
    each (shared_with new_specs old_specs) (update_one old_specs new_specs)

  -- `{p.id: p for p in self.plugins_of(old)} if old is not None else {}`
  abbrev pub old_specs_of :
      {C : Type 0} → (C → List (PluginSpec Settings)) → Option C → Dict Text (PluginSpec Settings)
  old_specs_of plugins_of none = []
  old_specs_of plugins_of (some old) = by_id (plugins_of old) []

  -- `RegistrySubscriber.on_config_changed`
  unfoldable pub registry_changed :
      {C : Type 0} → (C → List (PluginSpec Settings)) → Option C → C → Exec R (Unit {0})
  unfolding reconcile by_id
  registry_changed plugins_of old new =
      reconcile (old_specs_of plugins_of old) (by_id (plugins_of new) [])

-- `SchedulerSubscriber.on_config_changed`, for the in-memory scheduler
unfoldable pub scheduler_changed :
    {C J : Type 0}
    → (C → List MonitoredDomain)
    → (MonitoredDomain → J)
    → Option C
    → C
    → Exec (Jobs J) (Unit {0})
scheduler_changed domains_of factory old new jobs =
    (ok tt, Scheduling.reconcile factory (domains_of new) jobs)

-- `ParsingSubscriber.on_config_changed`
unfoldable pub parsing_changed :
    {C A R : Type 0}
    → (C → List A)
    → (List A → Exec R (Unit {0}))
    → Option C
    → C
    → Exec R (Unit {0})
parsing_changed rules_of apply old new = apply (rules_of new)

-- A subscriber of the holder changes the state `R` of the program.
abbrev pub Subscriber : Type 0 → Type 0 → Type 0
Subscriber C R = Option C → C → Exec R (Unit {0})

pub record ConfigHolder (C R : Type 0) : Type 0 where
  pub current : Option C
  pub subscribers : List (Subscriber C R)

module _ {C R : Type 0} where
  -- `subscribe`, and `subscribe_object` with the bound method
  unfoldable pub subscribe : Subscriber C R → ConfigHolder C R → ConfigHolder C R
  subscribe f holder = record holder { subscribers = holder.subscribers ++ (f ∷ []) }

  -- `_safe`: what the subscriber raises is dropped
  unfoldable pub safe : Subscriber C R → Option C → C → R → R
  safe f old new r = (f old new r).1

  -- `_fan_out`; `gather` starts the subscribers in their order, and each is taken to end before the
  -- next one starts, as subscribers of distinct parts of the program cannot tell the difference
  unfoldable pub fan_out : List (Subscriber C R) → Option C → C → R → R
  unfolding safe
  fan_out [] old new r = r
  fan_out (f ∷ fs) old new r = fan_out fs old new (safe f old new r)

  -- `update`, which its lock makes one step
  unfoldable pub update : C → ConfigHolder C R → R → ConfigHolder C R × R
  unfolding fan_out
  update new holder r =
      (record holder { current = some new }, fan_out holder.subscribers holder.current new r)
