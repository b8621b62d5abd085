-- ===== src/Tests/Values.antt =====
-- The value objects, and the registry of plugins.
use domain_watcher.Application.Registry
use domain_watcher.Application.Registry.{register, get-register}
use domain_watcher.Dict.{Dict, contains}
use domain_watcher.Prelude.{
  ℕ, ◌&&◌, not, ◌==◌, list_eq, nat_eq, if◌then◌else◌, ◌≡◌, refl, some, [], ◌∷◌, ◌*◌,
}
use domain_watcher.Shared.Decimal.{decimal}
use domain_watcher.Shared.Duration.RoundTrip.{parse-show, parse-decimal}
use domain_watcher.Shared.Duration.{parse, show, unit_seconds}
use domain_watcher.Shared.Text.{Text, is_empty}
use domain_watcher.Shared.Errors.{ok}
use domain_watcher.Tests.Data.{week}

parse-show_example : parse (show week) ≡ ok week
parse-show_example = parse-show week

hours : unit_seconds b'h' ≡ some 3600
unfolding unit_seconds
hours = refl

parse-decimal_example : parse (decimal 36 (b'h' ∷ [])) ≡ ok (record { seconds = 36 * 3600 })
parse-decimal_example = parse-decimal 36 b'h' 3600 hours

abbrev no_plugins : Dict Text ℕ
no_plugins = []

abbrev rdap : Text
rdap = b'r' ∷ []

get-register_example : Registry.get (register rdap 5 no_plugins).1 rdap ≡ (
    if not (is_empty rdap) && (not (contains no_plugins rdap) && (rdap == rdap))
    then ok 5
    else Registry.get no_plugins rdap)
get-register_example = get-register rdap 5 no_plugins rdap
