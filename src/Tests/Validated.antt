-- ===== src/Tests/Validated.antt =====
-- The validation pipeline on a rule that passes its gates, alone and behind the parsing service.
use domain_watcher.Application.ParsingService.Validated.{piped, Learned, parse-Learned}
use domain_watcher.Application.ParsingService.{
  LearnedRulesRepository, ParsingEnvironment, ParsingService, memory_learned_rules, parse,
}
use domain_watcher.Application.World.{World}
use domain_watcher.Dict
use domain_watcher.Parsing.Engine.{Runtime, done}
use domain_watcher.Parsing.LearnedRules.{LearnedRules, no_rules}
use domain_watcher.Parsing.Regex
use domain_watcher.Parsing.Validation.Cache.{Entry, validate-Entry, validate-unfetched}
use domain_watcher.Parsing.Validation.Gates.{
  gate1, gate2, matched, or_gate3, in_range, not_registration, match_known_good, gate6, is_sentinel,
  fresh, ValidationPipeline, known_good_for, candidates,
}
use domain_watcher.Parsing.Validation.Verdicts.Answers.{validate-Verdict}
use domain_watcher.Parsing.Validation.Verdicts.{Verdict}
use domain_watcher.Parsing.Regex.{
  convert, convert_as, parse_iso_like, or_parse_error, to_utc, ends_with_z,
}
use domain_watcher.Parsing.Validation.{
  gate5, against, cached_or_fetched, on_fetched, CrossCheck, PipelineState, validate,
}
use domain_watcher.Parsing.{ParseRule, capture_groups}
use domain_watcher.Prelude.{
  ℕ, ◌+◌, ◌*◌, ◌≡◌, refl, true, false, Option, none, some, List, [], ◌∷◌, arith, nat_eq, list_eq,
  list_beq, pair_eq, all, any, ◌⊎◌,
}
use domain_watcher.Shared.DomainName.{
  DomainName, tld, make, normalise, to_ascii, is_ascii, is_label, label_re, label_body, label_rest,
  is_alnum, drop_newline, last_labels, last_label, is_double_tld,
}
use domain_watcher.Shared.Errors.{Result, ok, raise, transient_check_error}
use domain_watcher.Shared.Text.{
  Text, drop_while, is_space, strip, drop_end, split_on, put_head, to_lower, join,
}
use domain_watcher.Shared.Time.{Instant, second, aware}
use domain_watcher.Tests.Data
use domain_watcher.Tests.Data.{rule, site, zeros}

-- An engine whose every pattern has one group, which matches the whole text, and whose every date
-- is the same.
abbrev runtime : Runtime
runtime = record Data.runtime {
  search = λ raw text. some (some text);
  from_iso = λ text. done (aware (1000 * second));
}

abbrev pipeline : ValidationPipeline
pipeline = record {
  max_age_years = 50;
  revalidate_after_seconds = 30;
  known_good = (b'b' ∷ [], site.value ∷ (b'c' ∷ b'.' ∷ b'b' ∷ []) ∷ []) ∷ [];
}

abbrev idna : Text → Option Text
idna text = none

abbrev cross_check : CrossCheck ℕ
cross_check = record { now = λ e. (e, e + 1); fetch_raw = λ domain e. (ok (b'x' ∷ []), e + 1) }

abbrev kept_key : Text × Text
kept_key = (b'b' ∷ [], b'c' ∷ b'.' ∷ b'b' ∷ [])

abbrev state : PipelineState ℕ
state = record { env = 7; cache = []; skipped = [] }

abbrev kept_state : PipelineState ℕ
kept_state = record { env = 7; cache = (kept_key, (5, b'x' ∷ [])) ∷ []; skipped = [] }

abbrev other : DomainName
other = record { value = b'c' ∷ b'.' ∷ b'b' ∷ [] }

validate-Verdict_example :
    Verdict runtime pipeline idna cross_check rule
      (b'x' ∷ [])
      site
      state
      (validate runtime pipeline idna cross_check rule (b'x' ∷ []) site state).0
validate-Verdict_example =
    validate-Verdict runtime pipeline idna cross_check rule (b'x' ∷ []) site state

validate-Entry_example :
    Entry runtime pipeline idna cross_check rule (b'x' ∷ []) site state kept_key (
      Dict.get
        (validate runtime pipeline idna cross_check rule (b'x' ∷ []) site state).1.cache
        kept_key)
validate-Entry_example =
    validate-Entry runtime pipeline idna cross_check rule (b'x' ∷ []) site state kept_key

known : known_good_for idna site (candidates pipeline site) ≡ ok (some other)
unfolding known_good_for make normalise to_ascii is_ascii is_label label_re label_body label_rest
    is_alnum drop_newline last_labels last_label is_double_tld tld strip drop_end split_on put_head
    to_lower join list_beq Dict.get all
known = refl

present : Dict.get kept_state.cache (tld site, other.value) ≡ some (5, b'x' ∷ [])
unfolding last_labels last_label is_double_tld tld split_on put_head join list_beq Dict.get
present = refl

abbrev down : DomainName → ℕ → Result Text × ℕ
down domain e = (raise (transient_check_error []), e)

validate-unfetched_example :
    validate runtime pipeline idna
      (record cross_check { fetch_raw = down })
      rule
      (b'x' ∷ [])
      site
      kept_state
    ≡ validate runtime pipeline idna cross_check rule (b'x' ∷ []) site kept_state
validate-unfetched_example =
    validate-unfetched runtime pipeline idna cross_check rule (b'x' ∷ []) site kept_state down other
      5 (b'x' ∷ []) known present (omega arith)

accepted : (validate runtime pipeline idna cross_check rule (b'x' ∷ []) site state).0 ≡ ok tt
unfolding validate gate1 capture_groups gate2 matched or_gate3 convert convert_as parse_iso_like
    or_parse_error to_utc in_range not_registration gate5 known_good_for against fresh
    cached_or_fetched on_fetched match_known_good gate6 is_sentinel any ends_with_z make normalise
    to_ascii is_ascii is_label label_re label_body label_rest is_alnum drop_newline last_labels
    last_label is_double_tld tld strip drop_end drop_while is_space split_on put_head to_lower join
    list_beq Dict.get all
accepted = refl

abbrev base : ParsingEnvironment ℕ
base = record {
  now = λ e. (e, e + 1);
  system_now = λ e. (e, e + 1);
  acquire_host = λ key e. (true, e + 1);
  acquire_tld = λ key e. (true, e + 1);
  suggest = λ raw domain e. (ok rule, e + 1);
  validate = λ candidate raw domain e. (ok tt, e + 1);
}

abbrev repository : LearnedRulesRepository LearnedRules
repository = memory_learned_rules runtime

abbrev parser : Text → DomainName → List ParseRule → Result Instant
parser = Regex.parse runtime

abbrev digest : Text → Text
digest text = zeros 64

abbrev wired : ParsingEnvironment (PipelineState ℕ)
wired = piped runtime pipeline idna cross_check base

abbrev service : ParsingService wired repository parser digest
service = record {
  static_rules = [];
  suggester = some (b's' ∷ []);
  validation_pipeline = some 1;
  has_host_limiter = true;
  has_tld_limiter = false;
  suggester_host = b'h' ∷ [];
}

abbrev world : World (PipelineState ℕ) LearnedRules
world = record { env = state; store = no_rules; published = [] }

abbrev after : LearnedRules
after = (parse wired repository parser digest service (b'x' ∷ []) site world).1.store

parse-Learned_example :
    (after ≡ no_rules)
    ⊎ Learned runtime pipeline idna cross_check base repository parser digest service
        (b'x' ∷ [])
        site
        no_rules
        after
parse-Learned_example =
    parse-Learned runtime pipeline idna cross_check base repository parser digest service
      (b'x' ∷ []) site world
