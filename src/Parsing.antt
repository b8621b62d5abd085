-- ===== src/Parsing.antt =====
-- core/parsing/value_objects.py: `DateFormat`, `RegexPattern`, `ParseRule` and `LearnedRule`, with
-- the checks of `__post_init__`. The regex engine is a parameter (Parsing/Engine).
pub mod Engine
pub mod Regex
pub mod LearnedRules
pub mod Safety
pub mod Validation
use domain_watcher.Checking.{differ}
use domain_watcher.Notification.{hex_re}
use domain_watcher.Parsing.Engine.{Runtime}
use domain_watcher.Prelude.{
  ℕ, ◌≡◌, Bool, true, false, not, Option, none, some, ◌==◌, nat_eq, list_eq, ltb, is_some,
  if◌then◌else◌, Eq, arith, refl,
}
use domain_watcher.Shared.DomainName.{DomainName}
use domain_watcher.Shared.Errors.{Result, ok, raise, value_error, raise_if, ◌>>=◌, ◌>>◌}
use domain_watcher.Shared.Text.{Text, is_empty, strip}
use domain_watcher.Shared.Time.{Instant}

pub data DateFormat : Type 0 where
  iso_8601 rfc_3339 dd_mmm_yyyy yyyy_mm_dd epoch_seconds custom : DateFormat

-- `date_format is DateFormat.CUSTOM`
abbrev pub is_custom : DateFormat → Bool
is_custom custom = true
is_custom _ = false

pub record ParseRule : Type 0 where
  pub tld : Text
  -- `expires_regex.raw`; compiling it again gives the same pattern
  pub expires_regex : Text
  pub date_format : DateFormat
  pub timezone : Text
  pub strptime_format : Option Text

pub record LearnedRule : Type 0 where
  pub id : ℕ
  pub tld : Text
  pub expires_regex : Text
  pub date_format : DateFormat
  pub timezone : Text
  pub strptime_format : Option Text
  pub auto_learned : Bool
  pub disabled : Bool
  pub suggester_id : Text
  pub pipeline_version : ℕ
  pub sample_whois_sha256 : Text
  pub sample_domain : DomainName
  pub created_at : Instant
  pub last_revalidated_at : Option Instant
  pub revalidation_count : ℕ

module _ (runtime : Runtime) where
  open runtime use {groups}

  -- `RegexPattern(raw)` and then `compiled.groups`
  unfoldable pub capture_groups : Text → Result ℕ
  capture_groups raw = elim (groups raw) [ none ↦ raise value_error | some n ↦ ok n ]

  -- `ParseRule(…)`, with the construction of its `RegexPattern`
  unfoldable pub make_rule : ParseRule → Result ParseRule
  unfolding capture_groups
  make_rule r = do
    n ← capture_groups r.expires_regex
    raise_if (is_empty (strip r.tld)) value_error
    raise_if (not (n == 1)) value_error
    raise_if (differ (is_custom r.date_format) (is_some r.strptime_format)) value_error
    ok r

  -- `LearnedRule(…)`; the instants are aware, and the count is no negative number
  unfoldable pub make_learned : LearnedRule → Result LearnedRule
  unfolding hex_re
  make_learned r = do
    raise_if (is_empty r.tld) value_error
    raise_if (not (hex_re 64 r.sample_whois_sha256)) value_error
    raise_if (ltb r.pipeline_version 1) value_error
    raise_if (is_empty r.suggester_id) value_error
    raise_if (differ (is_custom r.date_format) (is_some r.strptime_format)) value_error
    ok r

  -- `LearnedRule.as_parse_rule`
  unfoldable pub as_parse_rule : LearnedRule → Result ParseRule
  unfolding make_rule
  as_parse_rule r = make_rule (record {
    tld = r.tld;
    expires_regex = r.expires_regex;
    date_format = r.date_format;
    timezone = r.timezone;
    strptime_format = r.strptime_format;
  })
