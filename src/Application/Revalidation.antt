-- ===== src/Application/Revalidation.antt =====
-- `RevalidationService` of application/services/revalidation_service.py.
pub mod Changes
use domain_watcher.Application.Events.{
  Event, whois_rule_revalidated, whois_rule_invalidated, make_event,
}
use domain_watcher.Application.ParsingService.{LearnedRulesRepository}
use domain_watcher.Application.World.{World, outside, outside_raising, publish}
use domain_watcher.Parsing.Engine.{Runtime}
use domain_watcher.Parsing.{ParseRule, LearnedRule, as_parse_rule}
use domain_watcher.Prelude.Int.{leb_ℤ}
use domain_watcher.Prelude.{ℕ, Bool, true, false, Option, none, some, List, [], ◌∷◌, if◌then◌else◌}
use domain_watcher.Shared.DomainName.{DomainName}
use domain_watcher.Shared.Duration.{Duration, as_timedelta}
use domain_watcher.Shared.Errors.{Error, Result, ok, raise, suggestion_error, rule_validation_error}
use domain_watcher.Shared.Exec.{Exec, pure, throw, lift, try, settle, continue, ◌>>=◌, ◌>>◌}
use domain_watcher.Shared.Text.{Text, lit, or_else}
use domain_watcher.Shared.Time.{Instant, since}

-- What the service is given by injection and does not implement.
pub record RevalidationEnvironment (E : Type 0) : Type 0 where
  pub now : E → Instant × E
  pub fetch_whois : DomainName → E → Result Text × E
  pub validate : ParseRule → Text → DomainName → E → Result (Unit {0}) × E

-- `_due`, on the time of the last revalidation
unfoldable pub due_since : Duration → Option Instant → Instant → Bool
due_since after none now = true
due_since after (some at) now = leb_ℤ (as_timedelta after) (since now at)

module _ (runtime : Runtime) {E R : Type 0} (env : RevalidationEnvironment E)
    (repo : LearnedRulesRepository R) (revalidate_after : Duration) where
  abbrev pub Run : Type 0
  Run = Exec (World E R) (Unit {0})

  unfoldable pub is_due : LearnedRule → Instant → Bool
  unfolding due_since
  is_due rule now = due_since revalidate_after rule.last_revalidated_at now

  -- a method of the repository that writes
  unfoldable pub writing : (R → Result ℕ × R) → Exec (World E R) ℕ
  writing f w = let (r, s) = f w.store in (r, record w { store = s })

  -- `str(exc) or "validation_failed"`
  abbrev pub reason_of : Text → Text
  reason_of m = or_else m (lit "validation_failed")

  unfoldable pub publish_invalidated : LearnedRule → Text → Run
  unfolding make_event
  publish_invalidated rule m = do
    now ← outside env.now
    publish (whois_rule_invalidated now rule.id rule.tld (reason_of m))

  -- the `except` clauses
  unfoldable pub on_invalid : LearnedRule → Error → Run
  unfolding writing publish_invalidated
  on_invalid rule (suggestion_error m t p) = pure tt
  on_invalid rule (rule_validation_error m) = do
    id ← writing (repo.disable rule.id)
    publish_invalidated rule m
  on_invalid rule e = throw e

  -- what stands behind the `try`
  unfoldable pub on_valid : LearnedRule → Run
  unfolding writing make_event
  on_valid rule = do
    at ← outside env.now
    id ← writing (repo.mark_revalidated rule.id at)
    publish (whois_rule_revalidated at rule.id rule.tld)

  -- the second `try`
  unfoldable pub validated : LearnedRule → Text → Exec (World E R) (Unit {0})
  validated rule raw = do
    parse_rule ← lift (as_parse_rule runtime rule)
    outside_raising (env.validate parse_rule raw rule.sample_domain)

  -- `_revalidate`
  unfoldable pub revalidate : LearnedRule → Run
  unfolding on_invalid on_valid validated
  revalidate rule =
      try (outside_raising (env.fetch_whois rule.sample_domain)) (λ e. pure tt)
        (λ raw. try (validated rule raw) (on_invalid rule) (λ _. on_valid rule))

  -- the loop of `run_once`
  unfoldable pub revalidate_due : Instant → List LearnedRule → Run
  unfolding is_due revalidate
  revalidate_due now [] = pure tt
  revalidate_due now (rule ∷ rules) =
      let rest = revalidate_due now rules in
      if is_due rule now then revalidate rule >> rest else rest

  unfoldable pub run_once : Run
  unfolding revalidate_due
  run_once w =
      let (now, e) = env.now w.env in
      revalidate_due now (repo.list_all false w.store) (record w { env = e })
