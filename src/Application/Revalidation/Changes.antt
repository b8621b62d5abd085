-- ===== src/Application/Revalidation/Changes.antt =====
-- How `RevalidationService.run_once` can change the learned rules.
use domain_watcher.Application.ParsingService.{LearnedRulesRepository}
use domain_watcher.Application.Revalidation.{
  RevalidationEnvironment, publish_invalidated, reason_of, is_due, writing, on_invalid, on_valid,
  validated, revalidate, revalidate_due, run_once,
}
use domain_watcher.Application.Events.{
  Event, make_event, is_invalid, whois_rule_revalidated, whois_rule_invalidated,
}
use domain_watcher.Application.World.{World, publish}
use domain_watcher.Shared.Exec.{Exec, continue}
use domain_watcher.Checking.{differ}
use mathlib.Core.Path.{subst}
use domain_watcher.Parsing.Engine.{Runtime}
use domain_watcher.Parsing.{
  ParseRule, LearnedRule, as_parse_rule, make_rule, capture_groups, is_custom,
}
use domain_watcher.Prelude.{
  ℕ, ◌≡◌, refl, Bool, true, false, List, [], ◌∷◌, Bool-cases, inl, inr, sym, Option-cases, is_some,
  not, ◌==◌, nat_eq, list_eq, All,
}
use domain_watcher.Shared.Duration.{Duration}
use domain_watcher.Shared.Errors.{
  Error, Result, Result-cases, ok, raise, raise_if, value_error, ◌>>=◌, ◌>>◌, suggestion_error,
  rule_validation_error,
}
use domain_watcher.Shared.Text.{Text, is_empty, strip}
use domain_watcher.Shared.Time.{Instant}

-- a rule of a list
pub data Listed (rule : LearnedRule) : List LearnedRule → Type 0 where
  here : (rules : List LearnedRule) → Listed rule (rule ∷ rules)
  there :
      (other : LearnedRule) (rules : List LearnedRule)
      → Listed rule rules
      → Listed rule (other ∷ rules)

Listed-cons :
    (other : LearnedRule) (rules all : List LearnedRule)
    → All (λ r. Listed r all) rules
    → All (λ r. Listed r (other ∷ all)) rules
Listed-cons other [] all h = tt
Listed-cons other (r ∷ rules) all (h, hs) = (there other all h, Listed-cons other rules all hs)

Listed-self : (rules : List LearnedRule) → All (λ r. Listed r rules) rules
Listed-self [] = tt
Listed-self (r ∷ rules) = (here rules, Listed-cons r rules rules (Listed-self rules))

-- a result that is no exception but a `ValueError`
abbrev OnlyValue : {A : Type 0} → Result A → Type 0
OnlyValue (ok a) = Unit
OnlyValue (raise e) = e ≡ value_error

guard-OnlyValue :
    {A : Type 0} (b : Bool) (m : Result A) → OnlyValue m → OnlyValue (raise_if b value_error >> m)
guard-OnlyValue true m h = refl
guard-OnlyValue false m h = h

bind-OnlyValue :
    {A B : Type 0} (n : Result B) (k : B → Result A)
    → OnlyValue n
    → ((b : B) → OnlyValue (k b))
    → OnlyValue (n >>= k)
bind-OnlyValue (ok b) k h g = g b
bind-OnlyValue (raise e) k h g = h

capture_groups-OnlyValue : (runtime : Runtime) (raw : Text) → OnlyValue (capture_groups runtime raw)
unfolding capture_groups
capture_groups-OnlyValue runtime raw = elim (Option-cases (runtime.groups raw)) [
  | inl e ↦ rw (e, OnlyValue) refl
  | inr (n, e) ↦ rw (e, OnlyValue) tt
]

as_parse_rule-OnlyValue :
    (runtime : Runtime) (r : LearnedRule) → OnlyValue (as_parse_rule runtime r)
unfolding as_parse_rule make_rule
as_parse_rule-OnlyValue runtime r =
    bind-OnlyValue (capture_groups runtime r.expires_regex) _
      (capture_groups-OnlyValue runtime r.expires_regex)
      (λ n. guard-OnlyValue (is_empty (strip r.tld)) _ (
        guard-OnlyValue (not (n == 1)) _ (
          guard-OnlyValue (differ (is_custom r.date_format) (is_some r.strptime_format)) (ok _)
            tt)))

module _ (runtime : Runtime) {E R : Type 0} (env : RevalidationEnvironment E)
    (repo : LearnedRulesRepository R) (after : Duration) (now : Instant) where
  -- Changes of the rules in a pass over `rules` that began at `now`: one of the rules that was due is
  -- disabled, since the pipeline rejected it by `RuleValidationError`, or marked, since the pipeline
  -- passed it.
  pub data Changes (rules : List LearnedRule) (s : R) : R → Type 0 where
    none_yet : Changes rules s s
    disabled :
        {t : R} (rule : LearnedRule) (candidate : ParseRule) (raw m : Text)
        → Changes rules s t
        → Listed rule rules
        → is_due runtime env repo after rule now ≡ true
        → as_parse_rule runtime rule ≡ ok candidate
        → ((e : E) × ((env.validate candidate raw rule.sample_domain e).0
              ≡ raise (rule_validation_error m)))
        → Changes rules s (repo.disable rule.id t).1
    marked :
        {t : R} (rule : LearnedRule) (candidate : ParseRule) (raw : Text) (at : Instant)
        → Changes rules s t
        → Listed rule rules
        → is_due runtime env repo after rule now ≡ true
        → as_parse_rule runtime rule ≡ ok candidate
        → ((e : E) × ((env.validate candidate raw rule.sample_domain e).0 ≡ ok tt))
        → Changes rules s (repo.mark_revalidated rule.id at t).1

  publish-store : (event : Event) (v : World E R) → (publish event v).1.store ≡ v.store
  unfolding make_event
  publish-store event v = elim (Bool-cases (is_invalid event)) [
    | inl bad ↦ rw bad refl
    | inr good ↦ rw good refl
  ]

  publish_invalidated-store :
      (rule : LearnedRule) (m : Text) (v : World E R)
      → (publish_invalidated runtime env repo after rule m v).1.store ≡ v.store
  unfolding publish_invalidated
  publish_invalidated-store rule m v =
      publish-store
        (whois_rule_invalidated (env.now v.env).0 rule.id rule.tld
          (reason_of runtime env repo after m))
        (record v { env = (env.now v.env).1 })

  -- Behind a method of the repository the store is left as it is.
  writes-store :
      (f : R → Result ℕ × R) (k : ℕ → Exec (World E R) (Unit {0})) (w : World E R)
      → ((id : ℕ) (v : World E R) → (k id v).1.store ≡ v.store)
      → (continue (f w.store).0 k (record w { store = (f w.store).1 })).1.store ≡ (f w.store).1
  writes-store f k w h = elim (Result-cases (f w.store).0) [
    | inl (id, e) ↦ rw e (h id (record w { store = (f w.store).1 }))
    | inr (x, e) ↦ rw e refl
  ]

  module _ (all : List LearnedRule) (s : R) (rule : LearnedRule) (listed : Listed rule all)
      (due : is_due runtime env repo after rule now ≡ true) where
    on_invalid-Changes :
        (x : Error) (candidate : ParseRule) (raw : Text) (w : World E R)
        → Changes all s w.store
        → as_parse_rule runtime rule ≡ ok candidate
        → ((e : E) × ((env.validate candidate raw rule.sample_domain e).0 ≡ raise x))
        → Changes all s (on_invalid runtime env repo after rule x w).1.store
    unfolding on_invalid writing
    on_invalid-Changes (suggestion_error m t p) candidate raw w c built rejected = c
    on_invalid-Changes (rule_validation_error m) candidate raw w c built rejected =
        subst (Changes all s)
          (sym (
            writes-store (repo.disable rule.id)
              (λ id. publish_invalidated runtime env repo after rule m) w
              (λ id v. publish_invalidated-store rule m v)))
          (disabled rule candidate raw m c listed due built rejected)
    on_invalid-Changes x candidate raw w c built rejected = c

    on_valid-Changes :
        (candidate : ParseRule) (raw : Text) (w : World E R)
        → Changes all s w.store
        → as_parse_rule runtime rule ≡ ok candidate
        → ((e : E) × ((env.validate candidate raw rule.sample_domain e).0 ≡ ok tt))
        → Changes all s (on_valid runtime env repo after rule w).1.store
    unfolding on_valid writing
    on_valid-Changes candidate raw w c built passed =
        let at = (env.now w.env).0 in
        subst (Changes all s)
          (sym (
            writes-store (repo.mark_revalidated rule.id at)
              (λ id. publish (whois_rule_revalidated at rule.id rule.tld))
              (record w { env = (env.now w.env).1 })
              (λ id v. publish-store (whois_rule_revalidated at rule.id rule.tld) v)))
          (marked rule candidate raw at c listed due built passed)

    unbuilt-Changes :
        (x : Error) (w : World E R)
        → Changes all s w.store
        → x ≡ value_error
        → Changes all s (on_invalid runtime env repo after rule x w).1.store
    unfolding on_invalid
    unbuilt-Changes x w c e = rw e c

    -- the environment after the text was fetched
    abbrev fetched_env : World E R → E
    fetched_env w = (env.fetch_whois rule.sample_domain w.env).1

    revalidate-Changes :
        (w : World E R)
        → Changes all s w.store
        → Changes all s (revalidate runtime env repo after rule w).1.store
    unfolding revalidate validated
    revalidate-Changes w c = elim (Result-cases (env.fetch_whois rule.sample_domain w.env).0) [
      | inl (raw, fetched) ↦ rw fetched (elim (Result-cases (as_parse_rule runtime rule)) [
        | inl (candidate, built) ↦
            rw built
              (elim (Result-cases
                (env.validate candidate raw rule.sample_domain (fetched_env w)).0) [
                  | inl (u, passed) ↦
                      rw passed (on_valid-Changes candidate raw _ c built (fetched_env w, passed))
                  | inr (x, rejected) ↦
                      rw rejected
                        (on_invalid-Changes x candidate raw _ c built (fetched_env w, rejected))
                ])
        | inr (x, failed) ↦ rw failed (
            unbuilt-Changes x (record w { env = fetched_env w }) c
              (subst OnlyValue failed (as_parse_rule-OnlyValue runtime rule)))
      ])
      | inr (x, failed) ↦ rw failed c
    ]

  then-Changes :
      (all : List LearnedRule) (s : R) (m rest : Exec (World E R) (Unit {0})) (w : World E R)
      → Changes all s (m w).1.store
      → ((v : World E R) → Changes all s v.store → Changes all s (rest v).1.store)
      → Changes all s (continue (m w).0 (λ u. rest) (m w).1).1.store
  then-Changes all s m rest w c h = elim (Result-cases (m w).0) [
    | inl (u, e) ↦ rw e (h (m w).1 c)
    | inr (x, e) ↦ rw e c
  ]

  revalidate_due-Changes :
      (all : List LearnedRule) (s : R) (rules : List LearnedRule) (w : World E R)
      → All (λ r. Listed r all) rules
      → Changes all s w.store
      → Changes all s (revalidate_due runtime env repo after now rules w).1.store
  unfolding revalidate_due
  revalidate_due-Changes all s [] w m c = c
  revalidate_due-Changes all s (rule ∷ rules) w (m, ms) c =
      let again : (v : World E R)
          → Changes all s v.store
          → Changes all s (revalidate_due runtime env repo after now rules v).1.store =
        λ v d. revalidate_due-Changes all s rules v ms d in
      elim (Bool-cases (is_due runtime env repo after rule now)) [
        | inl due ↦ rw due (
            then-Changes all s (revalidate runtime env repo after rule)
              (revalidate_due runtime env repo after now rules) w
              (revalidate-Changes all s rule m due w c) again)
        | inr early ↦ rw early (again w c)
      ]

module _ (runtime : Runtime) {E R : Type 0} (env : RevalidationEnvironment E)
    (repo : LearnedRulesRepository R) (after : Duration) where
  -- Whether a pass of `run_once` ends or raises, and whatever the fetches and the pipeline answer, the
  -- learned rules are then as before but for steps of two kinds: a rule that the repository listed at
  -- the start of the pass, and that was due then, is disabled after the pipeline rejected it by
  -- `RuleValidationError`, or marked as revalidated after the pipeline passed it.
  pub run_once-Changes :
      (w : World E R)
      → Changes runtime env repo after
          (env.now w.env).0
          (repo.list_all false w.store)
          w.store
          (run_once runtime env repo after w).1.store
  unfolding run_once
  run_once-Changes w =
      let listed = repo.list_all false w.store in
      revalidate_due-Changes runtime env repo after (env.now w.env).0 listed w.store listed
        (record w { env = (env.now w.env).1 }) (Listed-self listed) none_yet
