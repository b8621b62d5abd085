-- ===== src/Application/ParsingService.antt =====
-- `ParsingService` of application/services/parsing_service.py, and the `LearnedRulesRepository` port
-- of core/parsing/ports.py that it writes to.
pub mod Endings
pub mod Learning
pub mod Validated
use domain_watcher.Application.Events.{Event, parse_failed, whois_rule_learned, make_event}
use domain_watcher.Application.World.{World, outside, outside_raising, publish}
use domain_watcher.Monitoring.{no_items}
use domain_watcher.Parsing.Engine.{Runtime}
use domain_watcher.Parsing.LearnedRules
use domain_watcher.Parsing.LearnedRules.{Sample}
use domain_watcher.Parsing.{ParseRule, LearnedRule}
use domain_watcher.Prelude.{
  ℕ, Bool, true, false, not, Option, none, some, List, [], ◌∷◌, ◌++◌, filter, ◌==◌, nat_eq, list_eq,
  if◌then◌else◌,
}
use domain_watcher.Shared.DomainName.{DomainName, tld}
use domain_watcher.Shared.Errors.{
  Error, Result, ok, raise, parse_error, no_matching_rule_error, rule_validation_error,
  suggestion_error, is_parse_error, message,
}
use domain_watcher.Shared.Exec.{Exec, pure, throw, lift, try, continue, settle, ◌>>=◌, ◌>>◌}
use domain_watcher.Shared.Text.{Text, lit}
use domain_watcher.Shared.Time.{Instant}

-- The instant that `add` takes is the one that the repository reads for `created_at`.
pub record LearnedRulesRepository (R : Type 0) : Type 0 where
  pub for_tld : Text → R → Result (List ParseRule)
  pub add : ParseRule → Sample → Instant → R → Result ℕ × R
  pub disable : ℕ → R → Result ℕ × R
  pub list_all : Bool → R → List LearnedRule
  pub mark_revalidated : ℕ → Instant → R → Result ℕ × R

unfoldable pub memory_learned_rules : Runtime → LearnedRulesRepository LearnedRules.LearnedRules
memory_learned_rules runtime = record {
  for_tld = LearnedRules.for_tld runtime;
  add = LearnedRules.add runtime;
  disable = LearnedRules.disable runtime;
  list_all = LearnedRules.list_all runtime;
  mark_revalidated = LearnedRules.mark_revalidated runtime;
}

-- What the service is given by injection and does not implement.
pub record ParsingEnvironment (E : Type 0) : Type 0 where
  -- `clock.now()`, and `datetime.now` in the repository
  pub now : E → Instant × E
  pub system_now : E → Instant × E
  -- `host_limiter.acquire(key)` and `tld_limiter.acquire(key)`
  pub acquire_host : Text → E → Bool × E
  pub acquire_tld : Text → E → Bool × E
  -- `suggester.suggest(raw, domain)`
  pub suggest : Text → DomainName → E → Result ParseRule × E
  -- `validation_pipeline.validate(candidate, raw_whois=raw, domain=domain)`
  pub validate : ParseRule → Text → DomainName → E → Result (Unit {0}) × E

-- `parser` is the pure `WhoisParser.parse`; `sha256_hex` the digest of a text.
module _ {E R : Type 0} (env : ParsingEnvironment E) (repo : LearnedRulesRepository R)
    (parser : Text → DomainName → List ParseRule → Result Instant) (sha256_hex : Text → Text) where
  pub record ParsingService : Type 0 where
    pub static_rules : List ParseRule
    -- `suggester.id`, if there is a suggester
    pub suggester : Option Text
    -- `validation_pipeline.pipeline_version`, if there is a pipeline
    pub validation_pipeline : Option ℕ
    pub has_host_limiter : Bool
    pub has_tld_limiter : Bool
    pub suggester_host : Text

  module _ (service : ParsingService) (raw : Text) (domain : DomainName) where
    abbrev pub Run : Type 0
    Run = Exec (World E R) Instant

    -- `_emit_parse_failed`, and the `raise` behind it
    unfoldable pub refuse : Text → Bool → Error → Run
    unfolding make_event
    refuse reason attempted error = do
      now ← outside env.now
      publish (parse_failed now domain reason attempted)
      throw error

    -- the `try` around the parser with `except NoMatchingRuleError: pass`
    unfoldable pub or_next : Result Instant → Run → Run
    or_next (ok d) rest = pure d
    or_next (raise (no_matching_rule_error m)) rest = rest
    or_next (raise e) rest = throw e

    -- steps 1 and 2: the rules, if there are any
    unfoldable pub by_rules : List ParseRule → Run → Run
    unfolding or_next
    by_rules rules rest = if no_items rules then rest else or_next (parser raw domain rules) rest

    -- a rate limit
    unfoldable pub limited : Bool → (E → Bool × E) → Text → Run → Run
    unfolding refuse
    limited false acquire reason rest = rest
    limited true acquire reason rest = do
      granted ← outside acquire
      if granted then rest else refuse reason false (suggestion_error reason true false)

    -- the last `try`
    unfoldable pub on_parsed : Result Instant → Run
    unfolding refuse is_parse_error
    on_parsed (ok d) = pure d
    on_parsed (raise e) =
        if is_parse_error e
        then refuse (lit "post_learn_parse_failure: " ++ message e) true e
        else throw e

    abbrev pub sample_of : Text → ℕ → Sample
    sample_of id version = record {
      sha256 = sha256_hex raw;
      domain = domain;
      suggester_id = id;
      pipeline_version = version;
    }

    -- `learned_rules.add(…)`
    unfoldable pub store_candidate : Text → ℕ → ParseRule → Instant → Exec (World E R) ℕ
    store_candidate id version candidate at w =
        let (r, s) = repo.add candidate (sample_of id version) at w.store in
        (r, record w { store = s })

    -- `# Persist + emit + re-parse.`
    unfoldable pub learn : Text → ℕ → ParseRule → Run
    unfolding store_candidate on_parsed make_event
    learn id version candidate = do
      at ← outside env.system_now
      rid ← store_candidate id version candidate at
      now ← outside env.now
      publish (whois_rule_learned now rid candidate.tld domain id)
      on_parsed (parser raw domain (candidate ∷ []))

    unfoldable pub on_suggest_error : Error → Run
    unfolding refuse
    on_suggest_error (suggestion_error m t p) =
        refuse (lit "suggestion_error: " ++ m) true (suggestion_error m t p)
    on_suggest_error e = throw e

    unfoldable pub on_validate_error : Error → Run
    unfolding refuse
    on_validate_error (suggestion_error m t p) =
        refuse (lit "validation_transient: " ++ m) true (suggestion_error m t p)
    on_validate_error (rule_validation_error m) =
        refuse (lit "validation_rejected: " ++ m) true (rule_validation_error m)
    on_validate_error e = throw e

    -- `# Suggest.` and `# Validate.`
    unfoldable pub suggest_rule : Text → ℕ → Run
    unfolding on_suggest_error on_validate_error learn
    suggest_rule id version =
        try (outside_raising (env.suggest raw domain)) on_suggest_error (λ candidate.
          try (outside_raising (env.validate candidate raw domain)) on_validate_error
            (λ _. learn id version candidate))

    -- step 3
    unfoldable pub fallback : Option Text → Option ℕ → Run
    unfolding limited suggest_rule
    fallback (some id) (some version) =
        limited service.has_host_limiter (env.acquire_host service.suggester_host)
          (lit "rate_limit_host")
          (limited service.has_tld_limiter (env.acquire_tld (tld domain)) (lit "rate_limit_tld")
            (suggest_rule id version))
    fallback _ _ = refuse (lit "no_matching_rule (fallback disabled)") false (
        no_matching_rule_error
          (lit "no rule matched for " ++ (domain.value ++ lit " (LLM fallback disabled)")))

    -- steps 2 and 3
    unfoldable pub by_learned : Run
    unfolding by_rules fallback
    by_learned w =
        (do
          learned ← lift (repo.for_tld (tld domain) w.store)
          by_rules learned (fallback service.suggester service.validation_pipeline))
          w

    -- `parse`, with `_rules_for_tld`
    unfoldable pub parse : Run
    unfolding by_rules by_learned
    parse = by_rules (filter (λ r. r.tld == tld domain) service.static_rules) by_learned
