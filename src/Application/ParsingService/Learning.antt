-- ===== src/Application/ParsingService/Learning.antt =====
-- How `ParsingService.parse` can end, and what it has stored and published by then.
use domain_watcher.Application.Events.{Event, parse_failed, make_event, is_invalid}
use domain_watcher.Application.ParsingService.Endings.{
  Added, learned_event, EndsIn, answered, unreadable, refused, escaped, unsaved, unannounced,
  learned, unparsed,
}
use domain_watcher.Application.ParsingService.{
  LearnedRulesRepository, ParsingEnvironment, ParsingService, refuse, or_next, by_rules, limited,
  on_parsed, sample_of, store_candidate, learn, on_suggest_error, on_validate_error, suggest_rule,
  fallback, by_learned, parse,
}
use domain_watcher.Application.World.{World}
use domain_watcher.Parsing.{ParseRule}
use domain_watcher.Prelude.{
  ℕ, ◌≡◌, refl, Bool, true, false, Option, none, some, List, [], ◌∷◌, ◌++◌, ◌==◌, nat_eq, list_eq,
  Bool-cases, inl, inr, sym, ap, filter,
}
use domain_watcher.Shared.DomainName.{DomainName, tld}
use domain_watcher.Shared.Errors.{
  Error, Result, Result-cases, ok, raise, no_matching_rule_error, suggestion_error,
  rule_validation_error, is_parse_error, message,
}
use domain_watcher.Shared.Exec.{Exec}
use domain_watcher.Shared.Text.{Text, lit, is_empty}
use domain_watcher.Shared.Time.{Instant}

module _ {E R : Type 0} (env : ParsingEnvironment E) (repo : LearnedRulesRepository R)
    (parser : Text → DomainName → List ParseRule → Result Instant) (sha256_hex : Text → Text)
    (service : ParsingService env repo parser sha256_hex) (raw : Text) (domain : DomainName) where
  -- `refuse` publishes one event and raises.
  refuse-published :
      (reason : Text) (attempted : Bool) (e : Error) (w : World E R)
      → is_empty reason ≡ false
      → refuse env repo parser sha256_hex service raw domain reason attempted e w ≡ (
        raise e,
        record w {
          env = (env.now w.env).1;
          published = w.published ++ (parse_failed (env.now w.env).0 domain reason attempted ∷ []);
        },
      )
  unfolding refuse make_event is_invalid
  refuse-published reason attempted e w h = rw h refl

  refuse-Ends :
      (reason : Text) (attempted : Bool) (e : Error) (w : World E R)
      → is_empty reason ≡ false
      → EndsIn env repo parser sha256_hex service raw domain w.store w.published
          (refuse env repo parser sha256_hex service raw domain reason attempted e w)
  refuse-Ends reason attempted e w h =
      rw (refuse-published reason attempted e w h)
        (refused e (env.now w.env).0 reason attempted h refl refl)

  or_next-Ends :
      (rules : List ParseRule) (r : Result Instant) (rest : Exec (World E R) Instant)
      (w : World E R)
      → r ≡ parser raw domain rules
      → EndsIn env repo parser sha256_hex service raw domain w.store w.published (rest w)
      → EndsIn env repo parser sha256_hex service raw domain w.store w.published
          (or_next env repo parser sha256_hex service raw domain r rest w)
  unfolding or_next
  or_next-Ends rules (ok d) rest w e h =
      answered rules (ok d) e (record { stored = refl; events = refl })
  or_next-Ends rules (raise (no_matching_rule_error m)) rest w e h = h
  or_next-Ends rules (raise x) rest w e h =
      answered rules (raise x) e (record { stored = refl; events = refl })

  by_rules-Ends :
      (rules : List ParseRule) (rest : Exec (World E R) Instant) (w : World E R)
      → EndsIn env repo parser sha256_hex service raw domain w.store w.published (rest w)
      → EndsIn env repo parser sha256_hex service raw domain w.store w.published
          (by_rules env repo parser sha256_hex service raw domain rules rest w)
  unfolding by_rules
  by_rules-Ends [] rest w h = h
  by_rules-Ends (r ∷ rs) rest w h = or_next-Ends (r ∷ rs) (parser raw domain (r ∷ rs)) rest w refl h

  limited-Ends :
      (flag : Bool) (acquire : E → Bool × E) (reason : Text) (rest : Exec (World E R) Instant)
      (w : World E R)
      → is_empty reason ≡ false
      → ((v : World E R)
          → EndsIn env repo parser sha256_hex service raw domain v.store v.published (rest v))
      → EndsIn env repo parser sha256_hex service raw domain w.store w.published
          (limited env repo parser sha256_hex service raw domain flag acquire reason rest w)
  unfolding limited
  limited-Ends false acquire reason rest w i h = h w
  limited-Ends true acquire reason rest w i h = elim (Bool-cases (acquire w.env).0) [
    | inl e ↦ rw e (h (record w { env = (acquire w.env).1 }))
    | inr e ↦ rw e (
        refuse-Ends reason false (suggestion_error reason true false)
          (record w { env = (acquire w.env).1 }) i)
  ]

  module _ (id : Text) (version : ℕ) (by : service.suggester ≡ some id)
      (pipeline : service.validation_pipeline ≡ some version) where
    -- The run after the candidate is stored and announced.
    on_parsed-Ends :
        (candidate : ParseRule) (rid : ℕ) (now : Instant) (s : R) (p : List Event)
        (r : Result Instant) (w : World E R)
        (a : Added env repo parser sha256_hex service raw domain candidate s (ok rid) w.store)
        → r ≡ parser raw domain (candidate ∷ [])
        → w.published
          ≡ p
            ++ (learned_event env repo parser sha256_hex service raw domain now rid candidate a.id
                ∷ [])
        → EndsIn env repo parser sha256_hex service raw domain s p
            (on_parsed env repo parser sha256_hex service raw domain r w)
    unfolding on_parsed
    on_parsed-Ends candidate rid now s p (ok d) w a e q =
        learned candidate rid now (ok d) a e refl q
    on_parsed-Ends candidate rid now s p (raise x) w a e q = elim (Bool-cases (is_parse_error x)) [
      | inl bad ↦ rw bad (
          rw
            (refuse-published (lit "post_learn_parse_failure: " ++ message x) true x w
              (unfold lit in refl))
            (unparsed candidate rid now (env.now w.env).0 x
              (lit "post_learn_parse_failure: " ++ message x) a (sym e) bad (unfold lit in refl)
              (ap
                (λ es.
                  es
                  ++ (parse_failed (env.now w.env).0 domain
                        (lit "post_learn_parse_failure: " ++ message x) true
                      ∷ []))
                q)))
      | inr other ↦ rw other (learned candidate rid now (raise x) a e other q)
    ]

    learn-Ends :
        (candidate : ParseRule) (w : World E R)
        → ((e : E) × ((env.suggest raw domain e).0 ≡ ok candidate))
        → ((e : E) × ((env.validate candidate raw domain e).0 ≡ ok tt))
        → EndsIn env repo parser sha256_hex service raw domain w.store w.published
            (learn env repo parser sha256_hex service raw domain id version candidate w)
    unfolding learn store_candidate make_event
    learn-Ends candidate w suggested validated =
        let at = (env.system_now w.env).0 in
        let now = (env.now (env.system_now w.env).1).0 in
        let sample = sample_of env repo parser sha256_hex service raw domain id version in
        let outcome = repo.add candidate sample at w.store in
        let added : (r : Result ℕ)
            → outcome.0 ≡ r
            → Added env repo parser sha256_hex service raw domain candidate w.store r outcome.1 =
          λ r e. record {
            id = id;
            version = version;
            by = by;
            pipeline = pipeline;
            suggested = suggested;
            validated = validated;
            at = at;
            added = ap (λ x. (x, outcome.1)) e;
          } in
        elim (Result-cases outcome.0) [
          | inl (rid, e) ↦
              rw e
                (elim (Bool-cases (
                  is_invalid (
                    learned_event env repo parser sha256_hex service raw domain now rid candidate
                      id))) [
                        | inl bad ↦
                            rw bad (unannounced candidate rid now (added (ok rid) e) bad refl)
                        | inr good ↦ rw good (
                            on_parsed-Ends candidate rid now w.store w.published
                              (parser raw domain (candidate ∷ [])) _ (added (ok rid) e) refl refl)
                      ])
          | inr (x, e) ↦ rw e (unsaved candidate x (added (raise x) e) refl)
        ]

    on_suggest_error-Ends :
        (x : Error) (w : World E R)
        → ((v : E) × ((env.suggest raw domain v).0 ≡ raise x))
        → EndsIn env repo parser sha256_hex service raw domain w.store w.published
            (on_suggest_error env repo parser sha256_hex service raw domain x w)
    unfolding on_suggest_error lit
    on_suggest_error-Ends (suggestion_error m t p) w c =
        refuse-Ends (lit "suggestion_error: " ++ m) true (suggestion_error m t p) w refl
    on_suggest_error-Ends x w c = escaped x (inl c) (record { stored = refl; events = refl })

    on_validate_error-Ends :
        (candidate : ParseRule) (x : Error) (w : World E R)
        → ((v : E) × ((env.validate candidate raw domain v).0 ≡ raise x))
        → EndsIn env repo parser sha256_hex service raw domain w.store w.published
            (on_validate_error env repo parser sha256_hex service raw domain x w)
    unfolding on_validate_error lit
    on_validate_error-Ends candidate (suggestion_error m t p) w c =
        refuse-Ends (lit "validation_transient: " ++ m) true (suggestion_error m t p) w refl
    on_validate_error-Ends candidate (rule_validation_error m) w c =
        refuse-Ends (lit "validation_rejected: " ++ m) true (rule_validation_error m) w refl
    on_validate_error-Ends candidate x w c =
        escaped x (inr (candidate, c)) (record { stored = refl; events = refl })

    suggest_rule-Ends :
        (w : World E R)
        → EndsIn env repo parser sha256_hex service raw domain w.store w.published
            (suggest_rule env repo parser sha256_hex service raw domain id version w)
    unfolding suggest_rule
    suggest_rule-Ends w =
        let e = (env.suggest raw domain w.env).1 in
        elim (Result-cases (env.suggest raw domain w.env).0) [
          | inl (candidate, given) ↦
              rw given (elim (Result-cases (env.validate candidate raw domain e).0) [
                | inl (u, passed) ↦ rw passed (
                    learn-Ends candidate
                      (record w { env = (env.validate candidate raw domain e).1 }) (w.env, given)
                      (e, passed))
                | inr (x, rejected) ↦ rw rejected (
                    on_validate_error-Ends candidate x
                      (record w { env = (env.validate candidate raw domain e).1 }) (e, rejected))
              ])
          | inr (x, failed) ↦
              rw failed (on_suggest_error-Ends x (record w { env = e }) (w.env, failed))
        ]

  fallback-Ends :
      (suggester : Option Text) (version : Option ℕ) (w : World E R)
      → service.suggester ≡ suggester
      → service.validation_pipeline ≡ version
      → EndsIn env repo parser sha256_hex service raw domain w.store w.published
          (fallback env repo parser sha256_hex service raw domain suggester version w)
  unfolding fallback lit
  fallback-Ends (some id) (some version) w by pipeline =
      limited-Ends service.has_host_limiter (env.acquire_host service.suggester_host) _ _ w refl
        (λ v.
          limited-Ends service.has_tld_limiter (env.acquire_tld (tld domain)) _ _ v refl
            (λ u. suggest_rule-Ends id version by pipeline u))
  fallback-Ends none version w by pipeline =
      refuse-Ends (lit "no_matching_rule (fallback disabled)") false _ w refl
  fallback-Ends (some id) none w by pipeline =
      refuse-Ends (lit "no_matching_rule (fallback disabled)") false _ w refl

  by_learned-Ends :
      (w : World E R)
      → EndsIn env repo parser sha256_hex service raw domain w.store w.published
          (by_learned env repo parser sha256_hex service raw domain w)
  unfolding by_learned
  by_learned-Ends w = elim (Result-cases (repo.for_tld (tld domain) w.store)) [
    | inl (rules, e) ↦ rw e (
        by_rules-Ends rules _ w
          (fallback-Ends service.suggester service.validation_pipeline w refl refl))
    | inr (x, e) ↦ rw e (unreadable x e (record { stored = refl; events = refl }))
  ]

  -- A run of `parse` ends in one of eight ways, each with what `Ends` says of the store and the
  -- events: the learned rules change only by `add` of a candidate that the suggester gave and the
  -- pipeline passed; a run that is refused before that changes nothing and publishes exactly one
  -- `ParseFailed`, with a reason; and one whose rule is stored publishes `WhoisRuleLearned`, and
  -- a `ParseFailed` behind it if the new rule does not parse, unless the event cannot be built.
  pub parse-Ends :
      (w : World E R)
      → EndsIn env repo parser sha256_hex service raw domain w.store w.published
          (parse env repo parser sha256_hex service raw domain w)
  unfolding parse
  parse-Ends w =
      by_rules-Ends (filter (λ r. r.tld == tld domain) service.static_rules)
        (by_learned env repo parser sha256_hex service raw domain) w (by_learned-Ends w)
