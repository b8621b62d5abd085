-- ===== src/Parsing/Validation/Verdicts.antt =====
-- What an answer of `ValidationPipeline.validate` says of the rule and the texts.
pub mod Pure
pub mod Answers
use domain_watcher.Dict
use domain_watcher.Parsing.Engine.{Runtime}
use domain_watcher.Parsing.Regex.{convert}
use domain_watcher.Parsing.Validation.Gates.{
  ValidationPipeline, max_future, known_good_for, candidates, is_sentinel,
}
use domain_watcher.Parsing.Validation.{CrossCheck, PipelineState}
use domain_watcher.Parsing.{ParseRule}
use domain_watcher.Prelude.{
  ℕ, ◌+◌, ◌*◌, ◌≤◌, ◌<◌, ◌≡◌, ◌≢◌, Bool, true, false, Option, none, some, any, ◌==◌, nat_eq,
  list_eq, pair_eq, ◌⊎◌,
}
use domain_watcher.Shared.DomainName.{DomainName, tld}
use domain_watcher.Shared.Errors.{
  Error, Result, ok, raise, rule_validation_error, suggestion_error, transient_check_error,
  permanent_check_error, is_parse_error, value_error,
}
use domain_watcher.Shared.Text.{Text, is_empty, strip}
use domain_watcher.Shared.Time.{Instant, second}

-- A conversion that gives this instant.
unfoldable pub gives : Instant → Result Instant → Bool
gives parsed (ok d) = d == parsed
gives parsed (raise e) = false

-- An exception that `_gate5` does not catch.
abbrev pub IsUncaught : Error → Type 0
IsUncaught (transient_check_error m) = ⊥
IsUncaught (permanent_check_error m) = ⊥
IsUncaught e = Unit

module _ (runtime : Runtime) (pipeline : ValidationPipeline) (idna : Text → Option Text)
    {E : Type 0} (env : CrossCheck E) (rule : ParseRule) (raw : Text) (domain : DomainName)
    (s : PipelineState E) where
  -- the readings of the clock in gate 4 and in gate 5, and the world behind each
  abbrev pub first_reading : Instant × E
  first_reading = env.now s.env

  abbrev pub second_reading : Instant × E
  second_reading = env.now first_reading.1

  -- The text gives this instant by the rule.
  pub record ReadsAs (parsed : Instant) : Type 0 where
    pub captured : Option Text
    pub found : runtime.search rule.expires_regex raw ≡ some captured
    pub converted : convert runtime captured rule ≡ ok parsed

  -- Some registration line gives this instant by the rule.
  abbrev pub is_registration : Instant → Bool
  is_registration parsed =
      any (λ v. gives parsed (convert runtime (some v) rule)) (runtime.registration_values raw)

  -- The domain that the rule is checked against.
  abbrev pub IsKnownGood : DomainName → Type 0
  IsKnownGood kg = known_good_for idna domain (candidates pipeline domain) ≡ ok (some kg)

  -- Where the text of that domain is from.
  pub data Sourced (kg : DomainName) (text : Text) : Type 0 where
    cached :
        (at : Instant)
        → Dict.get s.cache (tld domain, kg.value) ≡ some (at, text)
        → second_reading.0 < at + pipeline.revalidate_after_seconds * second
        → Sourced kg text
    fetched :
        (env.fetch_raw kg second_reading.1).0 ≡ ok text
        → is_empty (strip text) ≡ false
        → Sourced kg text

  pub data CrossChecked : Type 0 where
    nothing_known : known_good_for idna domain (candidates pipeline domain) ≡ ok none → CrossChecked
    unavailable :
        (kg : DomainName) (m : Text)
        → IsKnownGood kg
        → (env.fetch_raw kg second_reading.1).0 ≡ raise (permanent_check_error m)
        → CrossChecked
    matching :
        (kg : DomainName) (text : Text) (group : Option Text)
        → IsKnownGood kg
        → Sourced kg text
        → runtime.search rule.expires_regex text ≡ some group
        → CrossChecked

  pub record Accepted : Type 0 where
    pub parsed : Instant
    pub one_group : runtime.groups rule.expires_regex ≡ some 1
    pub reads : ReadsAs parsed
    pub future : first_reading.0 < parsed
    pub bounded : parsed ≤ max_future pipeline first_reading.0
    pub unregistered : is_registration parsed ≡ false
    pub cross_checked : CrossChecked
    pub ordinary : is_sentinel parsed ≡ false

  -- `RuleValidationError`, one constructor for each test, `SuggestionError(transient=True)`, and
  -- what escapes.
  pub data Refused : Error → Type 0 where
    groups :
        {m : Text} (n : ℕ)
        → runtime.groups rule.expires_regex ≡ some n
        → n ≢ 1
        → Refused (rule_validation_error m)
    unmatched :
        {m : Text}
        → runtime.search rule.expires_regex raw ≡ none
        → Refused (rule_validation_error m)
    unreadable :
        {m : Text} (captured : Option Text) (e : Error)
        → runtime.search rule.expires_regex raw ≡ some captured
        → convert runtime captured rule ≡ raise e
        → is_parse_error e ≡ true
        → Refused (rule_validation_error m)
    past :
        {m : Text} (parsed : Instant)
        → ReadsAs parsed
        → parsed ≤ first_reading.0
        → Refused (rule_validation_error m)
    too_far :
        {m : Text} (parsed : Instant)
        → ReadsAs parsed
        → max_future pipeline first_reading.0 < parsed
        → Refused (rule_validation_error m)
    registration :
        {m : Text} (parsed : Instant)
        → ReadsAs parsed
        → is_registration parsed ≡ true
        → Refused (rule_validation_error m)
    overfit :
        {m : Text} (kg : DomainName) (text : Text)
        → IsKnownGood kg
        → Sourced kg text
        → runtime.search rule.expires_regex text ≡ none
        → Refused (rule_validation_error m)
    sentinel :
        {m : Text} (parsed : Instant)
        → ReadsAs parsed
        → is_sentinel parsed ≡ true
        → Refused (rule_validation_error m)
    postponed :
        {m : Text} (kg : DomainName)
        → IsKnownGood kg
        → ((t : Text) × ((env.fetch_raw kg second_reading.1).0 ≡ raise (transient_check_error t)))
          ⊎ ((text : Text) × (((env.fetch_raw kg second_reading.1).0 ≡ ok text)
                × (is_empty (strip text) ≡ true)))
        → Refused (suggestion_error m true false)
    uncompiled : runtime.groups rule.expires_regex ≡ none → Refused value_error
    unconverted :
        {e : Error} (captured : Option Text)
        → convert runtime captured rule ≡ raise e
        → is_parse_error e ≡ false
        → Refused e
    unnamed :
        {e : Error} → known_good_for idna domain (candidates pipeline domain) ≡ raise e → Refused e
    unfetched :
        {e : Error} (kg : DomainName)
        → IsKnownGood kg
        → (env.fetch_raw kg second_reading.1).0 ≡ raise e
        → IsUncaught e
        → Refused e

  abbrev pub Verdict : Result (Unit {0}) → Type 0
  Verdict (ok u) = Accepted
  Verdict (raise e) = Refused e
