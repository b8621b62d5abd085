-- ===== src/Parsing/Validation.antt =====
-- `ValidationPipeline` of infrastructure/parsers/validation_pipeline.py.
pub mod Gates
pub mod Verdicts
pub mod Cache
use domain_watcher.Dict
use domain_watcher.Dict.{Dict}
use domain_watcher.Parsing.Engine.{Runtime}
use domain_watcher.Parsing.Regex.{convert}
use domain_watcher.Parsing.{ParseRule, capture_groups}
use domain_watcher.Prelude.{
  ℕ, ◌+◌, ◌-◌, ◌*◌, Bool, true, false, not, Option, none, some, List, [], ◌∷◌, ◌++◌, any, ◌==◌,
  nat_eq, list_eq, pair_eq, ltb, leb, if◌then◌else◌,
}
use domain_watcher.Shared.Decimal.{decimal}
use domain_watcher.Shared.DomainName.{DomainName, tld, make}
use domain_watcher.Shared.Errors.{
  Error, Result, ok, raise, rule_validation_error, suggestion_error, transient_check_error,
  permanent_check_error, is_parse_error, message, raise_if,
}
use domain_watcher.Shared.Exec.{Exec, pure, throw, lift, continue, ◌>>=◌, ◌>>◌}
use domain_watcher.Shared.Text.{Text, lit, is_empty, strip, repr}
use domain_watcher.Shared.Time.{Instant, second}
use domain_watcher.Parsing.Validation.Gates.{
  ValidationPipeline, gate1, gate2, or_gate3, in_range, not_registration, known_good_for,
  candidates, fresh, match_known_good, gate6,
}

-- What the pipeline is given by injection: the clock and the fetcher.
pub record CrossCheck (E : Type 0) : Type 0 where
  pub now : E → Instant × E
  pub fetch_raw : DomainName → E → Result Text × E

-- What a call changes: the world outside, `_cache`, and the labels that
-- `pipeline_gate5_skipped_total` has counted.
pub record PipelineState (E : Type 0) : Type 0 where
  pub env : E
  pub cache : Dict (Text × Text) (Instant × Text)
  pub skipped : List Text

module _ (runtime : Runtime) (pipeline : ValidationPipeline) (idna : Text → Option Text)
    {E : Type 0} (env : CrossCheck E) where
  abbrev pub read_clock : Exec (PipelineState E) Instant
  read_clock s = (ok (env.now s.env).0, record s { env = (env.now s.env).1 })

  -- `pipeline_gate5_skipped_total.inc(label)`
  abbrev pub skip : Text → Exec (PipelineState E) (Unit {0})
  skip label s = (ok tt, record s { skipped = s.skipped ++ (label ∷ []) })

  -- what follows `fetch_raw`: the text to match, if any
  unfoldable pub on_fetched :
      DomainName → DomainName → Instant → Result Text → Exec (PipelineState E) (Option Text)
  on_fetched domain kg now (ok raw) =
      if is_empty (strip raw)
      then skip (lit "cross_check_unavailable")
        >> throw (
            suggestion_error (lit "gate5: cross-check returned empty body for " ++ kg.value) true
              false)
      else (λ s. (
        ok (some raw),
        record s { cache = Dict.insert s.cache (tld domain, kg.value) (now, raw) },
      ))
  on_fetched domain kg now (raise (transient_check_error m)) =
      skip (lit "cross_check_unavailable")
      >> throw
          (suggestion_error (lit "gate5: cross-check transient (" ++ (m ++ lit ")")) true false)
  on_fetched domain kg now (raise (permanent_check_error m)) =
      skip (lit "cross_check_unavailable") >> pure none
  on_fetched domain kg now (raise e) = throw e

  -- the `if` on the cached entry
  unfoldable pub cached_or_fetched :
      DomainName → DomainName → Instant → Option Text → Exec (PipelineState E) (Option Text)
  unfolding on_fetched
  cached_or_fetched domain kg now (some raw) s = pure (some raw) s
  cached_or_fetched domain kg now none s =
      let (r, e) = env.fetch_raw kg s.env in on_fetched domain kg now r (record s { env = e })

  -- the part of `_gate5` behind the choice of the domain
  unfoldable pub against :
      ParseRule → DomainName → Option DomainName → Exec (PipelineState E) (Unit {0})
  unfolding cached_or_fetched match_known_good fresh
  against rule domain none = skip (lit "no_known_good")
  against rule domain (some kg) = do
    now ← read_clock
    raw ← λ s.
        cached_or_fetched domain kg now
          (fresh pipeline (Dict.get s.cache (tld domain, kg.value)) now) s
    lift (match_known_good runtime rule kg raw)

  -- `_gate5`
  unfoldable pub gate5 : ParseRule → DomainName → Exec (PipelineState E) (Unit {0})
  unfolding known_good_for against
  gate5 rule domain =
      lift (known_good_for idna domain (candidates pipeline domain)) >>= against rule domain

  unfoldable pub validate : ParseRule → Text → DomainName → Exec (PipelineState E) (Unit {0})
  unfolding gate1 gate2 or_gate3 in_range not_registration gate5 gate6
  validate rule raw domain = do
    lift (gate1 runtime rule.expires_regex)
    captured ← lift (gate2 runtime rule.expires_regex raw)
    parsed ← lift (or_gate3 captured (convert runtime captured rule))
    now ← read_clock
    lift (in_range runtime pipeline now parsed)
    lift (not_registration runtime rule parsed (runtime.registration_values raw))
    gate5 rule domain
    lift (gate6 runtime parsed)
