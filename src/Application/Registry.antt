-- ===== src/Application/Registry.antt =====
-- `Registry` of infrastructure/registry.py, for plugins of a type `T`; a plugin's `id` is handed over
-- beside it.
use domain_watcher.Dict
use domain_watcher.Dict.{Dict, values, contains, get-insert}
use domain_watcher.Prelude.{
  ◌≡◌, refl, Bool, true, false, ◌&&◌, not, Option, none, some, List, ◌==◌, nat_eq, list_eq,
  if◌then◌else◌, Bool-cases, inl, inr,
}
use domain_watcher.Shared.Errors.{
  Result, ok, raise, value_error, plugin_conflict_error, plugin_not_found_error,
}
use domain_watcher.Shared.Text.{Text, is_empty}

abbrev pub Registry : Type 0 → Type 0
Registry T = Dict Text T

module _ {T : Type 0} where
  unfoldable pub register : Text → T → Registry T → Result (Unit {0}) × Registry T
  register id plugin items =
      if is_empty id
      then (raise value_error, items)
      else if contains items id
      then (raise plugin_conflict_error, items)
      else (ok tt, Dict.insert items id plugin)

  -- the value that a lookup found, or `PluginNotFoundError`
  unfoldable pub or_not_found : Option T → Result T
  or_not_found none = raise plugin_not_found_error
  or_not_found (some plugin) = ok plugin

  unfoldable pub get : Registry T → Text → Result T
  unfolding or_not_found
  get items id = or_not_found (Dict.get items id)

  -- `all`, and what `__iter__` yields
  unfoldable pub plugins : Registry T → List T
  plugins items = values items

  or_not_found-if :
      (b : Bool) (plugin : T) (o : Option T)
      → or_not_found (if b then some plugin else o) ≡ (if b then ok plugin else or_not_found o)
  unfolding or_not_found
  or_not_found-if true plugin o = refl
  or_not_found-if false plugin o = refl

  -- After `register` a lookup gives the plugin if its id was accepted, as one that is not empty and
  -- was not there, and is the one looked up; every other lookup is as before.
  pub get-register :
      (id : Text) (plugin : T) (items : Registry T) (j : Text)
      → get (register id plugin items).1 j ≡ (
          if not (is_empty id) && (not (contains items id) && (id == j))
          then ok plugin
          else get items j)
  unfolding get register
  get-register id plugin items j = elim (Bool-cases (is_empty id)) [
    | inl e ↦ rw e refl
    | inr e ↦ rw e (elim (Bool-cases (contains items id)) [
      | inl c ↦ rw c refl
      | inr c ↦
          rw (c, get-insert items id j plugin) (or_not_found-if (id == j) plugin (Dict.get items j))
    ])
  ]
