-- ===== src/Parsing/Validation/Verdicts/Answers.antt =====
-- `ValidationPipeline.validate` gives the verdicts.
use domain_watcher.Dict
use domain_watcher.Parsing.Engine.{Runtime}
use domain_watcher.Parsing.Validation.Gates.{
  ValidationPipeline, known_good_for, candidates, matched, fresh, match_known_good,
}
use domain_watcher.Parsing.Validation.Verdicts.{
  first_reading, second_reading, IsKnownGood, Sourced, CrossChecked, Accepted, Verdict, cached,
  fetched, nothing_known, unavailable, matching, overfit, postponed, unnamed, unfetched,
}
use domain_watcher.Parsing.Validation.{
  CrossCheck, PipelineState, on_fetched, cached_or_fetched, against, gate5, validate,
}
use domain_watcher.Parsing.{ParseRule}
use domain_watcher.Prelude.{
  ◌+◌, ◌*◌, ◌≡◌, refl, Option, none, some, nat_eq, list_eq, pair_eq, inl, inr, Bool-cases,
  Option-cases, ltb, ltb→lt,
}
use domain_watcher.Shared.DomainName.{DomainName, tld}
use domain_watcher.Shared.Errors.{
  Result, ok, raise, transient_check_error, permanent_check_error, Result-cases,
}
use domain_watcher.Shared.Text.{Text, is_empty, strip}
use domain_watcher.Shared.Time.{Instant, second}
use domain_watcher.Parsing.Validation.Verdicts.Pure.{
  Either, Either-map, passes, fails, Bad, bind, gate1-Either, gate2-Either, gate3-Either,
  in_range-Either, registration-Either, gate6-Either, not_registration-Either,
}

module _ (runtime : Runtime) (pipeline : ValidationPipeline) (idna : Text → Option Text)
    {E : Type 0} (env : CrossCheck E) (rule : ParseRule) (raw : Text) (domain : DomainName)
    (s : PipelineState E) where
  -- Where the text to match is from, or why there is none.
  abbrev Source : DomainName → Option Text → Type 0
  Source kg none =
      (m : Text) × ((env.fetch_raw kg
          (second_reading runtime pipeline idna env rule raw domain s).1).0
        ≡ raise (permanent_check_error m))
  Source kg (some text) = Sourced runtime pipeline idna env rule raw domain s kg text

  on_fetched-Either :
      (kg : DomainName) (r : Result Text) (t : PipelineState E)
      → IsKnownGood runtime pipeline idna env rule raw domain s kg
      → (env.fetch_raw kg (second_reading runtime pipeline idna env rule raw domain s).1).0 ≡ r
      → Either
          (Source kg)
          (Bad runtime pipeline idna env rule raw domain s)
          (on_fetched runtime pipeline idna env domain kg
            (second_reading runtime pipeline idna env rule raw domain s).0
            r
            t).0
  unfolding on_fetched
  on_fetched-Either kg (ok text) t h e = elim (Bool-cases (is_empty (strip text))) [
    | inl blank ↦ rw blank (fails (postponed kg h (inr (text, (e, blank)))))
    | inr full ↦ rw full (passes (fetched e full))
  ]
  on_fetched-Either kg (raise (transient_check_error m)) t h e = fails (postponed kg h (inl (m, e)))
  on_fetched-Either kg (raise (permanent_check_error m)) t h e = passes (m, e)
  on_fetched-Either kg (raise x) t h e = fails (unfetched kg h e tt)

  cached_or_fetched-Either :
      (kg : DomainName) (entry : Option (Instant × Text)) (t : PipelineState E)
      → IsKnownGood runtime pipeline idna env rule raw domain s kg
      → Dict.get s.cache (tld domain, kg.value) ≡ entry
      → t.env ≡ (second_reading runtime pipeline idna env rule raw domain s).1
      → Either
          (Source kg)
          (Bad runtime pipeline idna env rule raw domain s)
          (cached_or_fetched runtime pipeline idna env domain kg
            (second_reading runtime pipeline idna env rule raw domain s).0
            (fresh pipeline entry (second_reading runtime pipeline idna env rule raw domain s).0)
            t).0
  unfolding cached_or_fetched fresh
  cached_or_fetched-Either kg none t h g e = rw e (on_fetched-Either kg _ _ h refl)
  cached_or_fetched-Either kg (some (at, text)) t h g e =
      elim (Bool-cases (
        ltb (second_reading runtime pipeline idna env rule raw domain s).0
          (at + pipeline.revalidate_after_seconds * second))) [
            | inl young ↦ rw young (passes (cached at g (ltb→lt _ _ young)))
            | inr old ↦ rw (old, e) (on_fetched-Either kg _ _ h refl)
          ]

  match_known_good-Either :
      (kg : DomainName) (o : Option Text)
      → IsKnownGood runtime pipeline idna env rule raw domain s kg
      → Source kg o
      → Either
          (λ u. CrossChecked runtime pipeline idna env rule raw domain s)
          (Bad runtime pipeline idna env rule raw domain s)
          (match_known_good runtime rule kg o)
  unfolding match_known_good matched
  match_known_good-Either kg none h (m, e) = passes (unavailable kg m h e)
  match_known_good-Either kg (some text) h source =
      elim (Option-cases (runtime.search rule.expires_regex text)) [
        | inl e ↦ rw e (fails (overfit kg text h source e))
        | inr (g, e) ↦ rw e (passes (matching kg text g h source e))
      ]

  against-Either :
      (o : Option DomainName)
      → known_good_for idna domain (candidates pipeline domain) ≡ ok o
      → Either
          (λ u. CrossChecked runtime pipeline idna env rule raw domain s)
          (Bad runtime pipeline idna env rule raw domain s)
          (against runtime pipeline idna env rule domain o
            (record s { env = (first_reading runtime pipeline idna env rule raw domain s).1 })).0
  unfolding against
  against-Either none h = passes (nothing_known h)
  against-Either (some kg) h =
      bind runtime pipeline idna env rule raw domain s _ _ _
        (cached_or_fetched-Either kg _ _ h refl refl)
        (λ o source. match_known_good-Either kg o h source)

  gate5-Either :
      Either
        (λ u. CrossChecked runtime pipeline idna env rule raw domain s)
        (Bad runtime pipeline idna env rule raw domain s)
        (gate5 runtime pipeline idna env rule domain
          (record s { env = (first_reading runtime pipeline idna env rule raw domain s).1 })).0
  unfolding gate5
  gate5-Either = elim (Result-cases (known_good_for idna domain (candidates pipeline domain))) [
    | inl (o, e) ↦ rw e (against-Either o e)
    | inr (x, e) ↦ rw e (fails (unnamed e))
  ]

  settled :
      (r : Result (Unit {0}))
      → Either
          (λ u. Accepted runtime pipeline idna env rule raw domain s)
          (Bad runtime pipeline idna env rule raw domain s)
          r
      → Verdict runtime pipeline idna env rule raw domain s r
  settled (ok u) (passes h) = h
  settled (raise e) (fails h) = h

  -- `validate` passes a rule only if all six gates hold of it. It rejects a rule only if the test
  -- of some gate fails, and asks for another try only if the cross-check could not be fetched; any
  -- other exception is one of the conversion, of the known-good domain's name or of the fetcher.
  pub validate-Verdict :
      Verdict runtime pipeline idna env rule raw domain s
        (validate runtime pipeline idna env rule raw domain s).0
  unfolding validate
  validate-Verdict = settled _ (
      bind runtime pipeline idna env rule raw domain s _ _ _
        (gate1-Either runtime pipeline idna env rule raw domain s)
        λ _ one.
          bind runtime pipeline idna env rule raw domain s _ _ _
            (gate2-Either runtime pipeline idna env rule raw domain s)
            λ captured found.
              bind runtime pipeline idna env rule raw domain s _ _ _
                (gate3-Either runtime pipeline idna env rule raw domain s captured found)
                λ parsed reads.
                  bind runtime pipeline idna env rule raw domain s _ _ _
                    (in_range-Either runtime pipeline idna env rule raw domain s parsed reads)
                    λ _ range.
                      bind runtime pipeline idna env rule raw domain s _ _ _
                        (registration-Either runtime pipeline idna env rule raw domain s parsed _
                          reads
                          (not_registration-Either runtime pipeline idna env rule raw domain s
                            parsed _))
                        λ _ un.
                          bind runtime pipeline idna env rule raw domain s _ _ _ (gate5-Either)
                            λ _ checked.
                              Either-map
                                (λ _ ordinary. record {
                                  parsed = parsed;
                                  one_group = one;
                                  reads = reads;
                                  future = range.0;
                                  bounded = range.1;
                                  unregistered = un;
                                  cross_checked = checked;
                                  ordinary = ordinary;
                                })
                                (gate6-Either runtime pipeline idna env rule raw domain s parsed
                                  reads))
