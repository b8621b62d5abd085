-- ===== src/Application/ParsingService/Endings.antt =====
-- The ways in which `ParsingService.parse` can end.
use domain_watcher.Application.Events.{Event, parse_failed, whois_rule_learned, is_invalid}
use domain_watcher.Application.ParsingService.{
  LearnedRulesRepository, ParsingEnvironment, ParsingService, sample_of,
}
use domain_watcher.Application.World.{World}
use domain_watcher.Parsing.{ParseRule}
use domain_watcher.Prelude.{
  ℕ, ◌≡◌, Bool, true, false, some, List, [], ◌∷◌, ◌++◌, nat_eq, list_eq, ◌⊎◌,
}
use domain_watcher.Shared.DomainName.{DomainName, tld}
use domain_watcher.Shared.Errors.{Error, Result, ok, raise, value_error, is_parse_error}
use domain_watcher.Shared.Text.{Text, is_empty}
use domain_watcher.Shared.Time.{Instant}

abbrev pub is_parse_failure : Result Instant → Bool
is_parse_failure (ok d) = false
is_parse_failure (raise e) = is_parse_error e

module _ {E R : Type 0} (env : ParsingEnvironment E) (repo : LearnedRulesRepository R)
    (parser : Text → DomainName → List ParseRule → Result Instant) (sha256_hex : Text → Text)
    (service : ParsingService env repo parser sha256_hex) (raw : Text) (domain : DomainName) where
  -- Nothing has been stored or published.
  pub record Unchanged (s : R) (p : List Event) (w : World E R) : Type 0 where
    pub stored : w.store ≡ s
    pub events : w.published ≡ p

  -- The suggester gave the candidate, the pipeline passed it, and this is what `add` made of it.
  pub record Added (candidate : ParseRule) (s : R) (r : Result ℕ) (t : R) : Type 0 where
    pub id : Text
    pub version : ℕ
    pub by : service.suggester ≡ some id
    pub pipeline : service.validation_pipeline ≡ some version
    pub suggested : (e : E) × ((env.suggest raw domain e).0 ≡ ok candidate)
    pub validated : (e : E) × ((env.validate candidate raw domain e).0 ≡ ok tt)
    pub at : Instant
    pub added :
        repo.add candidate (sample_of env repo parser sha256_hex service raw domain id version) at s
        ≡ (r, t)

  abbrev pub learned_event : Instant → ℕ → ParseRule → Text → Event
  learned_event now rid candidate id = whois_rule_learned now rid candidate.tld domain id

  -- The ends of a run that began at the store `s` with `p` published.
  pub data Ends (s : R) (p : List Event) : Result Instant → World E R → Type 0 where
    -- the static or the learned rules decided, or the learned ones could not be read
    answered :
        {w : World E R} (rules : List ParseRule) (r : Result Instant)
        → r ≡ parser raw domain rules
        → Unchanged s p w
        → Ends s p r w
    unreadable :
        {w : World E R} (e : Error)
        → repo.for_tld (tld domain) s ≡ raise e
        → Unchanged s p w
        → Ends s p (raise e) w
    -- no fallback, no token, or a refusal of the suggester or the pipeline
    refused :
        {w : World E R} (e : Error) (at : Instant) (reason : Text) (attempted : Bool)
        → is_empty reason ≡ false
        → w.store ≡ s
        → w.published ≡ p ++ (parse_failed at domain reason attempted ∷ [])
        → Ends s p (raise e) w
    -- the suggester or the pipeline raised something else
    escaped :
        {w : World E R} (e : Error)
        → ((v : E) × ((env.suggest raw domain v).0 ≡ raise e))
          ⊎ ((candidate : ParseRule) × ((v : E) × ((env.validate candidate raw domain v).0
                  ≡ raise e)))
        → Unchanged s p w
        → Ends s p (raise e) w
    -- `add` raised
    unsaved :
        {w : World E R} (candidate : ParseRule) (e : Error)
        → Added candidate s (raise e) w.store
        → w.published ≡ p
        → Ends s p (raise e) w
    -- the event could not be built
    unannounced :
        {w : World E R} (candidate : ParseRule) (rid : ℕ) (now : Instant)
        → (a : Added candidate s (ok rid) w.store)
        → is_invalid (learned_event now rid candidate a.id) ≡ true
        → w.published ≡ p
        → Ends s p (raise value_error) w
    learned :
        {w : World E R} (candidate : ParseRule) (rid : ℕ) (now : Instant) (r : Result Instant)
        → (a : Added candidate s (ok rid) w.store) → r ≡ parser raw domain (candidate ∷ [])
        → is_parse_failure r ≡ false
        → w.published ≡ p ++ (learned_event now rid candidate a.id ∷ [])
        → Ends s p r w
    unparsed :
        {w : World E R} (candidate : ParseRule) (rid : ℕ) (now at : Instant) (e : Error)
        (reason : Text)
        → (a : Added candidate s (ok rid) w.store) → parser raw domain (candidate ∷ []) ≡ raise e
        → is_parse_error e ≡ true
        → is_empty reason ≡ false
        → w.published
          ≡ (p ++ (learned_event now rid candidate a.id ∷ []))
            ++ (parse_failed at domain reason true ∷ [])
        → Ends s p (raise e) w

  abbrev pub EndsIn : R → List Event → Result Instant × World E R → Type 0
  EndsIn s p (r, w) = Ends s p r w
