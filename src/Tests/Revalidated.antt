-- ===== src/Tests/Revalidated.antt =====
-- `RevalidationService.run_once` on a repository with one rule, which the pipeline rejects.
use domain_watcher.Application.ParsingService.{LearnedRulesRepository, memory_learned_rules}
use domain_watcher.Application.Revalidation.Changes.{Changes, run_once-Changes}
use domain_watcher.Application.Revalidation.{RevalidationEnvironment, run_once}
use domain_watcher.Application.World.{World}
use domain_watcher.Parsing.LearnedRules.{LearnedRules, Sample, learned_from}
use domain_watcher.Prelude.{false, ℕ, ◌+◌, [], ◌∷◌}
use domain_watcher.Shared.Errors.{ok, raise, rule_validation_error}
use domain_watcher.Tests.Data.{rule, runtime, site, zeros, week}

abbrev environment : RevalidationEnvironment ℕ
environment = record {
  now = λ e. (e, e + 1);
  fetch_whois = λ name e. (ok (b'x' ∷ []), e + 1);
  validate = λ candidate raw domain e. (raise (rule_validation_error (b'r' ∷ [])), e + 1);
}

abbrev repository : LearnedRulesRepository LearnedRules
repository = memory_learned_rules runtime

abbrev sample : Sample
sample = record { sha256 = zeros 64; domain = site; suggester_id = b's' ∷ []; pipeline_version = 1 }

abbrev one_rule : LearnedRules
one_rule = record { by_id = (1, learned_from rule sample 1 3) ∷ []; next_id = 2 }

abbrev world : World ℕ LearnedRules
world = record { env = 7; store = one_rule; published = [] }

run_once-Changes_example :
    Changes runtime environment repository week 7
      (repository.list_all false one_rule)
      one_rule
      (run_once runtime environment repository week world).1.store
run_once-Changes_example = run_once-Changes runtime environment repository week world
