-- ===== src/Tests/Parsed.antt =====
-- `ParsingService.parse` with a suggester whose rule is stored, over the in-memory rules.
use domain_watcher.Application.ParsingService.Endings.{Ends}
use domain_watcher.Application.ParsingService.Learning.{parse-Ends}
use domain_watcher.Application.ParsingService.{
  LearnedRulesRepository, ParsingEnvironment, ParsingService, memory_learned_rules, parse,
}
use domain_watcher.Application.World.{World}
use domain_watcher.Parsing.LearnedRules.{LearnedRules, no_rules}
use domain_watcher.Parsing.Regex
use domain_watcher.Parsing.{ParseRule}
use domain_watcher.Prelude.{ℕ, ◌+◌, true, false, List, [], ◌∷◌, some}
use domain_watcher.Shared.DomainName.{DomainName}
use domain_watcher.Shared.Errors.{Result, ok}
use domain_watcher.Shared.Text.{Text}
use domain_watcher.Shared.Time.{Instant}
use domain_watcher.Tests.Data.{rule, runtime, site, zeros}

abbrev environment : ParsingEnvironment ℕ
environment = record {
  now = λ e. (e, e + 1);
  system_now = λ e. (e, e + 1);
  acquire_host = λ key e. (true, e + 1);
  acquire_tld = λ key e. (true, e + 1);
  suggest = λ raw domain e. (ok rule, e + 1);
  validate = λ candidate raw domain e. (ok tt, e + 1);
}

abbrev repository : LearnedRulesRepository LearnedRules
repository = memory_learned_rules runtime

abbrev parser : Text → DomainName → List ParseRule → Result Instant
parser = Regex.parse runtime

abbrev digest : Text → Text
digest text = zeros 64

abbrev service : ParsingService environment repository parser digest
service = record {
  static_rules = [];
  suggester = some (b's' ∷ []);
  validation_pipeline = some 1;
  has_host_limiter = true;
  has_tld_limiter = false;
  suggester_host = b'h' ∷ [];
}

abbrev world : World ℕ LearnedRules
world = record { env = 4; store = no_rules; published = [] }

parse-Ends_example :
    Ends environment repository parser digest service
      (b'x' ∷ [])
      site
      no_rules
      []
      (parse environment repository parser digest service (b'x' ∷ []) site world).0
      (parse environment repository parser digest service (b'x' ∷ []) site world).1
parse-Ends_example = parse-Ends environment repository parser digest service (b'x' ∷ []) site world
