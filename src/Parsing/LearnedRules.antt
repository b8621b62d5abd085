-- ===== src/Parsing/LearnedRules.antt =====
-- `MemoryLearnedRulesRepo` of infrastructure/persistence/memory/learned_rules.py. Its lock makes
-- each method one step.
pub mod Counting
pub mod Unique
use domain_watcher.Dict
use domain_watcher.Dict.{Dict, values}
use domain_watcher.Parsing.Engine.{Runtime}
use domain_watcher.Parsing.{ParseRule, LearnedRule, capture_groups, make_learned, as_parse_rule}
use domain_watcher.Prelude.{
  ℕ, ◌+◌, Bool, true, false, ◌&&◌, ◌||◌, not, Option, none, some, List, [], ◌∷◌, filter, any, ◌==◌,
  nat_eq, list_eq, if◌then◌else◌,
}
use domain_watcher.Shared.DomainName.{DomainName}
use domain_watcher.Shared.Errors.{Result, ok, raise, value_error, key_error, ◌>>=◌}
use domain_watcher.Shared.Text.{Text}
use domain_watcher.Shared.Time.{Instant}

pub record LearnedRules : Type 0 where
  pub by_id : Dict ℕ LearnedRule
  pub next_id : ℕ

-- `__init__`
unfoldable pub no_rules : LearnedRules
no_rules = record { by_id = []; next_id = 1 }

-- what `add` and `for_tld` test of a stored rule
unfoldable pub is_active : Text → Text → LearnedRule → Bool
is_active t regex r = r.tld == t && (r.expires_regex == regex && not r.disabled)

-- the keyword arguments of `add`
pub record Sample : Type 0 where
  pub sha256 : Text
  pub domain : DomainName
  pub suggester_id : Text
  pub pipeline_version : ℕ

-- the `LearnedRule` that `add` builds; `now` is what `datetime.now` returns
unfoldable pub learned_from : ParseRule → Sample → ℕ → Instant → LearnedRule
learned_from rule sample rid now = record {
  id = rid;
  tld = rule.tld;
  expires_regex = rule.expires_regex;
  date_format = rule.date_format;
  timezone = rule.timezone;
  strptime_format = rule.strptime_format;
  auto_learned = true;
  disabled = false;
  suggester_id = sample.suggester_id;
  pipeline_version = sample.pipeline_version;
  sample_whois_sha256 = sample.sha256;
  sample_domain = sample.domain;
  created_at = now;
  last_revalidated_at = none;
  revalidation_count = 0;
}

-- `LearnedRule(…, disabled=True, …)`
unfoldable pub disabled_of : LearnedRule → LearnedRule
disabled_of r = record r { disabled = true }

-- `LearnedRule(…, last_revalidated_at=at, revalidation_count=… + 1)`
unfoldable pub revalidated_of : Instant → LearnedRule → LearnedRule
revalidated_of at r = record r {
  last_revalidated_at = some at;
  revalidation_count = r.revalidation_count + 1;
}

module _ (runtime : Runtime) where
  -- `self._by_id[rule_id] = LearnedRule(…)`, or the exception of the constructor
  unfoldable pub store_rule : ℕ → Result LearnedRule → LearnedRules → Result ℕ × LearnedRules
  store_rule rid (raise e) s = (raise e, s)
  store_rule rid (ok r) s = (ok rid, record s { by_id = Dict.insert s.by_id rid r })

  -- `RegexPattern(raw)` and the `LearnedRule` around it
  unfoldable pub construct : LearnedRule → Result LearnedRule
  construct r = do n ← capture_groups runtime r.expires_regex; make_learned runtime r

  unfoldable pub add : ParseRule → Sample → Instant → LearnedRules → Result ℕ × LearnedRules
  unfolding store_rule construct
  add rule sample now s =
      if any (is_active rule.tld rule.expires_regex) (values s.by_id)
      then (raise value_error, s)
      else store_rule s.next_id (construct (learned_from rule sample s.next_id now))
          (record s { next_id = s.next_id + 1 })

  -- the `LearnedRule` that takes the place of the one with this id
  unfoldable pub replace : ℕ → (LearnedRule → LearnedRule) → LearnedRules → Result ℕ × LearnedRules
  replace rid f s = elim (Dict.get s.by_id rid) [
    | none ↦ (raise key_error, s)
    | some existing ↦ store_rule rid (make_learned runtime (f existing)) s
  ]

  unfoldable pub disable : ℕ → LearnedRules → Result ℕ × LearnedRules
  unfolding replace
  disable rid s = replace rid disabled_of s

  unfoldable pub mark_revalidated : ℕ → Instant → LearnedRules → Result ℕ × LearnedRules
  unfolding replace
  mark_revalidated rid at s = replace rid (revalidated_of at) s

  unfoldable pub list_all : Bool → LearnedRules → List LearnedRule
  list_all include_disabled s = filter (λ r. include_disabled || not r.disabled) (values s.by_id)

  unfoldable pub as_parse_rules : List LearnedRule → Result (List ParseRule)
  as_parse_rules [] = ok []
  as_parse_rules (r ∷ rs) = do
    rule ← as_parse_rule runtime r
    rules ← as_parse_rules rs
    ok (rule ∷ rules)

  unfoldable pub for_tld : Text → LearnedRules → Result (List ParseRule)
  unfolding as_parse_rules
  for_tld t s = as_parse_rules (filter (λ r. r.tld == t && not r.disabled) (values s.by_id))
