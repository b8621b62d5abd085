-- ===== src/Application/ParsingService/Validated.antt =====
-- `ParsingService` with `ValidationPipeline` as its pipeline, as composition.py wires them: the two
-- share the world outside, and the pipeline keeps its cache.
use domain_watcher.Application.ParsingService.Endings.{
  Added, Ends, answered, unreadable, refused, escaped, unsaved, unannounced, learned, unparsed,
}
use domain_watcher.Application.ParsingService.Learning.{parse-Ends}
use domain_watcher.Application.ParsingService.{
  LearnedRulesRepository, ParsingEnvironment, ParsingService, parse,
}
use domain_watcher.Application.World.{World}
use domain_watcher.Application.Events.{Event}
use domain_watcher.Parsing.Engine.{Runtime}
use domain_watcher.Parsing.LearnedRules.{Sample}
use domain_watcher.Parsing.Validation.Gates.{ValidationPipeline}
use domain_watcher.Parsing.Validation.Verdicts.Answers.{validate-Verdict}
use domain_watcher.Parsing.Validation.Verdicts.{Accepted, Verdict}
use domain_watcher.Parsing.Validation.{CrossCheck, PipelineState, validate}
use domain_watcher.Parsing.{ParseRule}
use domain_watcher.Prelude.{ℕ, ◌≡◌, Option, ap, List, ◌⊎◌, inl, inr}
use domain_watcher.Shared.DomainName.{DomainName}
use mathlib.Core.Path.{subst}
use domain_watcher.Shared.Errors.{Result, ok}
use domain_watcher.Shared.Text.{Text}
use domain_watcher.Shared.Time.{Instant}

-- an operation of the world outside
abbrev through : {E A : Type 0} → (E → A × E) → PipelineState E → A × PipelineState E
through f s = let (a, e) = f s.env in (a, record s { env = e })

module _ (runtime : Runtime) (pipeline : ValidationPipeline) (idna : Text → Option Text)
    {E : Type 0} (cross : CrossCheck E) where
  -- the environment of the service, with the pipeline in it
  unfoldable pub piped : ParsingEnvironment E → ParsingEnvironment (PipelineState E)
  piped base = record {
    now = through base.now;
    system_now = through base.system_now;
    acquire_host = λ key. through (base.acquire_host key);
    acquire_tld = λ key. through (base.acquire_tld key);
    suggest = λ raw domain. through (base.suggest raw domain);
    validate = validate runtime pipeline idna cross;
  }

  module _ {R : Type 0} (base : ParsingEnvironment E) (repo : LearnedRulesRepository R)
      (parser : Text → DomainName → List ParseRule → Result Instant) (sha256_hex : Text → Text)
      (service : ParsingService (piped base) repo parser sha256_hex) (raw : Text)
      (domain : DomainName) where
    -- The store came from `add` of a rule that the suggester gave and that passes every gate.
    pub record Learned (s t : R) : Type 0 where
      pub candidate : ParseRule
      pub sample : Sample
      pub at : Instant
      pub added : (repo.add candidate sample at s).1 ≡ t
      pub suggested : (e : E) × ((base.suggest raw domain e).0 ≡ ok candidate)
      pub gates :
          (v : PipelineState E) × Accepted runtime pipeline idna cross candidate raw domain v

    Accepted-ok :
        (candidate : ParseRule) (v : PipelineState E)
        → (validate runtime pipeline idna cross candidate raw domain v).0 ≡ ok tt
        → Accepted runtime pipeline idna cross candidate raw domain v
    Accepted-ok candidate v h =
        subst (Verdict runtime pipeline idna cross candidate raw domain v) h
          (validate-Verdict runtime pipeline idna cross candidate raw domain v)

    Added-Learned :
        (candidate : ParseRule) (s : R) (r : Result ℕ) (t : R)
        → Added (piped base) repo parser sha256_hex service raw domain candidate s r t
        → Learned s t
    unfolding piped
    Added-Learned candidate s r t a = record {
      candidate = candidate;
      sample = _;
      at = a.at;
      added = ap (λ p. p.1) a.added;
      suggested = (a.suggested.0.env, a.suggested.1);
      gates = (a.validated.0, Accepted-ok candidate a.validated.0 a.validated.1);
    }

    Ends-Learned :
        (s : R) (p : List Event) (r : Result Instant) (w : World (PipelineState E) R)
        → Ends (piped base) repo parser sha256_hex service raw domain s p r w
        → (w.store ≡ s) ⊎ Learned s w.store
    Ends-Learned s p r w (answered rules q e u) = inl u.stored
    Ends-Learned s p r w (unreadable e q u) = inl u.stored
    Ends-Learned s p r w (refused e at reason attempted i q v) = inl q
    Ends-Learned s p r w (escaped e c u) = inl u.stored
    Ends-Learned s p r w (unsaved candidate e a v) = inr (Added-Learned candidate s _ w.store a)
    Ends-Learned s p r w (unannounced candidate rid now a i v) =
        inr (Added-Learned candidate s _ w.store a)
    Ends-Learned s p r w (learned candidate rid now q a h i v) =
        inr (Added-Learned candidate s _ w.store a)
    Ends-Learned s p r w (unparsed candidate rid now at e reason a h i j v) =
        inr (Added-Learned candidate s _ w.store a)

    -- With the validation pipeline in place, a call of `parse` leaves the learned rules as they were
    -- or adds one rule, which the suggester gave and which passes all six gates for the text and the
    -- domain of the call.
    pub parse-Learned :
        (w : World (PipelineState E) R)
        → ((parse (piped base) repo parser sha256_hex service raw domain w).1.store ≡ w.store)
          ⊎ Learned w.store (parse (piped base) repo parser sha256_hex service raw domain w).1.store
    parse-Learned w =
        Ends-Learned w.store w.published _ _
          (parse-Ends (piped base) repo parser sha256_hex service raw domain w)
