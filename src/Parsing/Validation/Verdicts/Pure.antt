-- ===== src/Parsing/Validation/Verdicts/Pure.antt =====
-- The gates of `ValidationPipeline` that change nothing give the verdicts.
use domain_watcher.Parsing.Engine.{Runtime}
use domain_watcher.Parsing.Regex.{convert}
use domain_watcher.Parsing.Validation.Gates.{
  ValidationPipeline, max_future, is_sentinel, matched, or_gate3, unless_same, gate1, gate2,
  not_registration, gate6, in_range,
}
use domain_watcher.Parsing.Validation.Verdicts.{
  gives, first_reading, ReadsAs, is_registration, Refused, groups, unmatched, unreadable, past,
  too_far, registration, sentinel, uncompiled, unconverted,
}
use domain_watcher.Parsing.Validation.{CrossCheck, PipelineState}
use domain_watcher.Parsing.{ParseRule, capture_groups}
use domain_watcher.Prelude.{
  ℕ, ◌≤◌, ◌<◌, ◌≡◌, refl, true, false, Option, some, List, [], ◌∷◌, any, ◌==◌, ap, nat_eq, list_eq,
  pair_eq, ◌⊎◌, inl, inr, arith, Bool-cases, Option-cases, leb, ltb, ltb→lt, eq_iff,
}
use domain_watcher.Shared.DomainName.{DomainName}
use domain_watcher.Shared.Errors.{
  Error, Result, ok, raise, rule_validation_error, is_parse_error, Result-cases,
}
use domain_watcher.Shared.Exec.{Exec, continue}
use domain_watcher.Shared.Text.{Text}
use domain_watcher.Shared.Time.{Instant}

-- A result that is right, whether it is a value or a refusal.
pub data Either {A : Type 0} (P : A → Type 0) (Q : Error → Type 0) : Result A → Type 0 where
  passes : {a : A} → P a → Either P Q (ok a)
  fails : {e : Error} → Q e → Either P Q (raise e)

at_most : (a b : ℕ) → ltb a b ≡ false → b ≤ a
at_most a b h = ground arith

pub Either-map :
    {A : Type 0} {P Q : A → Type 0} {F : Error → Type 0} {r : Result A}
    → ((a : A) → P a → Q a)
    → Either P F r
    → Either Q F r
Either-map f (passes {a} p) = passes (f a p)
Either-map f (fails q) = fails q

module _ (runtime : Runtime) (pipeline : ValidationPipeline) (idna : Text → Option Text)
    {E : Type 0} (env : CrossCheck E) (rule : ParseRule) (raw : Text) (domain : DomainName)
    (s : PipelineState E) where
  abbrev pub Bad : Error → Type 0
  Bad = Refused runtime pipeline idna env rule raw domain s

  abbrev pub Reads : Instant → Type 0
  Reads = ReadsAs runtime pipeline idna env rule raw domain s

  pub bind :
      {A S : Type 0} {P : A → Type 0} {Q : Unit {0} → Type 0} (r : Result A)
      (f : A → Exec S (Unit {0})) (t : S)
      → Either P Bad r
      → ((a : A) → P a → Either Q Bad (f a t).0)
      → Either Q Bad (continue r f t).0
  bind (ok a) f t (passes p) h = h a p
  bind (raise e) f t (fails q) h = fails q

  pub gate1-Either :
      Either
        (λ u. runtime.groups rule.expires_regex ≡ some 1)
        Bad
        (gate1 runtime rule.expires_regex)
  unfolding gate1 capture_groups
  gate1-Either = elim (Option-cases (runtime.groups rule.expires_regex)) [
    | inl e ↦ rw (e, capture_groups) (fails (uncompiled e))
    | inr (n, e) ↦
        rw (e, capture_groups)
          (elim (Bool-cases (n == 1)) [
            | inl one ↦ rw one (passes (ap some (ground (arith, eq_iff n 1))))
            | inr other ↦ rw other (fails (groups n e (ground (arith, eq_iff n 1))))
          ])
  ]

  pub gate2-Either :
      Either
        (λ c. runtime.search rule.expires_regex raw ≡ some c)
        Bad
        (gate2 runtime rule.expires_regex raw)
  unfolding gate2 matched
  gate2-Either = elim (Option-cases (runtime.search rule.expires_regex raw)) [
    | inl e ↦ rw e (fails (unmatched e))
    | inr (c, e) ↦ rw e (passes refl)
  ]

  pub gate3-Either :
      (captured : Option Text)
      → runtime.search rule.expires_regex raw ≡ some captured
      → Either Reads Bad (or_gate3 captured (convert runtime captured rule))
  unfolding or_gate3
  gate3-Either captured h = elim (Result-cases (convert runtime captured rule)) [
    | inl (d, e) ↦ rw e (passes (record { captured = captured; found = h; converted = e }))
    | inr (x, e) ↦ rw e (elim (Bool-cases (is_parse_error x)) [
      | inl p ↦ rw p (fails (unreadable captured x h e p))
      | inr p ↦ rw p (fails (unconverted captured e p))
    ])
  ]

  pub in_range-Either :
      (parsed : Instant)
      → Reads parsed
      → Either
          (λ u.
            (first_reading runtime pipeline idna env rule raw domain s).0 < parsed
            × (parsed
                ≤ max_future pipeline
                    (first_reading runtime pipeline idna env rule raw domain s).0))
          Bad
          (in_range runtime pipeline (env.now s.env).0 parsed)
  unfolding in_range
  in_range-Either parsed h = elim (Bool-cases (leb parsed (env.now s.env).0)) [
    | inl e ↦ rw e (fails (past parsed h (ground arith)))
    | inr e ↦ rw e (elim (Bool-cases (ltb (max_future pipeline (env.now s.env).0) parsed)) [
      | inl f ↦ rw f (fails (too_far parsed h (ltb→lt _ _ f)))
      | inr f ↦ rw f (passes (ground arith, at_most _ _ f))
    ])
  ]

  pub not_registration-Either :
      (parsed : Instant) (vs : List Text)
      → Either
          (λ u. any (λ v. gives parsed (convert runtime (some v) rule)) vs ≡ false)
          (λ e.
            ((m : Text) × (e ≡ rule_validation_error m)
              × (any (λ v. gives parsed (convert runtime (some v) rule)) vs ≡ true))
            ⊎ ((v : Text) × (convert runtime (some v) rule ≡ raise e) × (is_parse_error e ≡ false)))
          (not_registration runtime rule parsed vs)
  unfolding not_registration any gives unless_same
  not_registration-Either parsed [] = passes refl
  not_registration-Either parsed (v ∷ vs) = elim (Result-cases (convert runtime (some v) rule)) [
    | inl (d, e) ↦ rw e (elim (Bool-cases (d == parsed)) [
      | inl same ↦ rw same (fails (inl (_, refl, refl)))
      | inr other ↦ rw other (not_registration-Either parsed vs)
    ])
    | inr (x, e) ↦ rw e (elim (Bool-cases (is_parse_error x)) [
      | inl p ↦ rw p (not_registration-Either parsed vs)
      | inr p ↦ rw p (fails (inr (v, e, p)))
    ])
  ]

  pub registration-Either :
      (parsed : Instant) (r : Result (Unit {0}))
      → Reads parsed
      → Either
          (λ u. is_registration runtime pipeline idna env rule raw domain s parsed ≡ false)
          (λ e.
            ((m : Text) × (e ≡ rule_validation_error m)
              × (is_registration runtime pipeline idna env rule raw domain s parsed ≡ true))
            ⊎ ((v : Text) × (convert runtime (some v) rule ≡ raise e) × (is_parse_error e ≡ false)))
          r
      → Either
          (λ u. is_registration runtime pipeline idna env rule raw domain s parsed ≡ false)
          Bad
          r
  registration-Either parsed (ok u) h (passes p) = passes p
  registration-Either parsed (raise e) h (fails (inl (m, q, p))) =
      fails (rw q (registration parsed h p))
  registration-Either parsed (raise e) h (fails (inr (v, c, p))) = fails (unconverted (some v) c p)

  pub gate6-Either :
      (parsed : Instant)
      → Reads parsed
      → Either (λ u. is_sentinel parsed ≡ false) Bad (gate6 runtime parsed)
  unfolding gate6
  gate6-Either parsed h = elim (Bool-cases (is_sentinel parsed)) [
    | inl e ↦ rw e (fails (sentinel parsed h e))
    | inr e ↦ rw e (passes refl)
  ]
