-- ===== src/Parsing/Validation/Cache.antt =====
-- The cache of known-good texts: what a call of `validate` writes to it, and when it is read.
use domain_watcher.Dict
use domain_watcher.Dict.{get-insert}
use domain_watcher.Parsing.Engine.{Runtime}
use domain_watcher.Parsing.Validation.Gates.{
  ValidationPipeline, gate1, gate2, or_gate3, in_range, not_registration, gate6, fresh,
  known_good_for, candidates,
}
use domain_watcher.Parsing.Regex.{convert}
use domain_watcher.Parsing.Validation.Verdicts.{first_reading, second_reading, IsKnownGood}
use domain_watcher.Parsing.Validation.{
  CrossCheck, PipelineState, on_fetched, cached_or_fetched, against, gate5, validate,
}
use domain_watcher.Parsing.{ParseRule}
use domain_watcher.Prelude.{
  ◌+◌, ◌*◌, ◌<◌, ◌≡◌, refl, false, Option, none, some, ◌==◌, nat_eq, list_eq, pair_eq, eq_iff, inl,
  inr, Bool-cases, sym, ap, lt→ltb,
}
use domain_watcher.Shared.DomainName.{DomainName, tld}
use domain_watcher.Shared.Errors.{Result, ok, raise, transient_check_error, permanent_check_error}
use domain_watcher.Shared.Exec.{Exec, continue}
use domain_watcher.Shared.Text.{Text, is_empty, strip}
use domain_watcher.Shared.Time.{Instant, second}

continue-ext :
    {S A B : Type 0} (r : Result A) (f g : A → Exec S B) (s : S)
    → ((a : A) → r ≡ ok a → f a s ≡ g a s)
    → continue r f s ≡ continue r g s
continue-ext (ok a) f g s h = h a refl
continue-ext (raise e) f g s h = refl

-- The state that a run ends with has the property.
record Leaves {S A : Type 0} (P : S → Type 0) (run : Result A × S) : Type 0 where
  left : P run.1

continue-Leaves :
    {S A B : Type 0} {P : S → Type 0} (r : Result A) (f : A → Exec S B) (s : S)
    → P s
    → ((a : A) → Leaves P (f a s))
    → Leaves P (continue r f s)
continue-Leaves (ok a) f s p h = h a
continue-Leaves (raise e) f s p h = record { left = p }

module _ (runtime : Runtime) (pipeline : ValidationPipeline) (idna : Text → Option Text)
    {E : Type 0} (env : CrossCheck E) (rule : ParseRule) (raw : Text) (domain : DomainName)
    (s : PipelineState E) where
  -- The entry of a key after the call.
  pub data Entry (key : Text × Text) (after : Option (Instant × Text)) : Type 0 where
    kept : after ≡ Dict.get s.cache key → Entry key after
    stored :
        (kg : DomainName) (text : Text)
        → key ≡ (tld domain, kg.value)
        → (env.fetch_raw kg (second_reading runtime pipeline idna env rule raw domain s).1).0
          ≡ ok text
        → is_empty (strip text) ≡ false
        → after ≡ some ((second_reading runtime pipeline idna env rule raw domain s).0, text)
        → Entry key after

  module _ (key : Text × Text) where
    abbrev Keeps : PipelineState E → Type 0
    Keeps t = Entry key (Dict.get t.cache key)

    on_fetched-Keeps :
        (kg : DomainName) (r : Result Text) (t : PipelineState E)
        → (env.fetch_raw kg (second_reading runtime pipeline idna env rule raw domain s).1).0 ≡ r
        → t.cache ≡ s.cache
        → Keeps
            (on_fetched runtime pipeline idna env domain kg
              (second_reading runtime pipeline idna env rule raw domain s).0
              r
              t).1
    unfolding on_fetched
    on_fetched-Keeps kg (ok text) t e c = elim (Bool-cases (is_empty (strip text))) [
      | inl blank ↦ rw (blank, c) (kept refl)
      | inr full ↦
          rw
            (
              full,
              get-insert t.cache (tld domain, kg.value) key
                  ((second_reading runtime pipeline idna env rule raw domain s).0, text),
            )
            (elim (Bool-cases ((tld domain, kg.value) == key)) [
              | inl same ↦
                  rw same
                    (stored kg text (sym ((eq_iff (tld domain, kg.value) key).0 same)) e full refl)
              | inr other ↦ rw (other, c) (kept refl)
            ])
    ]
    on_fetched-Keeps kg (raise (transient_check_error m)) t e c = rw c (kept refl)
    on_fetched-Keeps kg (raise (permanent_check_error m)) t e c = rw c (kept refl)
    on_fetched-Keeps kg (raise x) t e c = rw c (kept refl)

    cached_or_fetched-Keeps :
        (kg : DomainName) (o : Option Text) (t : PipelineState E)
        → t.env ≡ (second_reading runtime pipeline idna env rule raw domain s).1
        → t.cache ≡ s.cache
        → Keeps
            (cached_or_fetched runtime pipeline idna env domain kg
              (second_reading runtime pipeline idna env rule raw domain s).0
              o
              t).1
    unfolding cached_or_fetched
    cached_or_fetched-Keeps kg (some text) t e c = rw c (kept refl)
    cached_or_fetched-Keeps kg none t e c = rw e (on_fetched-Keeps kg _ _ refl c)

    against-Leaves :
        (o : Option DomainName)
        → Leaves Keeps (
            against runtime pipeline idna env rule domain o
              (record s { env = (first_reading runtime pipeline idna env rule raw domain s).1 }))
    unfolding against
    against-Leaves none = record { left = kept refl }
    against-Leaves (some kg) =
        let entry =
          fresh pipeline (Dict.get s.cache (tld domain, kg.value))
            (second_reading runtime pipeline idna env rule raw domain s).0 in
        let run =
          cached_or_fetched runtime pipeline idna env domain kg
            (second_reading runtime pipeline idna env rule raw domain s).0 entry
            (record s { env = (second_reading runtime pipeline idna env rule raw domain s).1 }) in
        let stepped =
          cached_or_fetched-Keeps kg entry
            (record s { env = (second_reading runtime pipeline idna env rule raw domain s).1 }) refl
            refl in
        continue-Leaves run.0 _ run.1 stepped (λ _. record { left = stepped })

    gate5-Leaves : Leaves Keeps (
        gate5 runtime pipeline idna env rule domain
          (record s { env = (first_reading runtime pipeline idna env rule raw domain s).1 }))
    unfolding gate5
    gate5-Leaves =
        continue-Leaves (known_good_for idna domain (candidates pipeline domain))
          (against runtime pipeline idna env rule domain)
          (record s { env = (first_reading runtime pipeline idna env rule raw domain s).1 })
          (kept refl) against-Leaves

    validate-Leaves : Leaves Keeps (validate runtime pipeline idna env rule raw domain s)
    unfolding validate
    validate-Leaves =
        let read = record s {
          env = (first_reading runtime pipeline idna env rule raw domain s).1;
        } in
        let checked = gate5 runtime pipeline idna env rule domain read in
        continue-Leaves (gate1 runtime rule.expires_regex) _ s (kept refl) λ _.
          continue-Leaves (gate2 runtime rule.expires_regex raw) _ s (kept refl) λ captured.
            continue-Leaves (or_gate3 captured (convert runtime captured rule)) _ s (kept refl)
              λ parsed.
                continue-Leaves
                  (in_range runtime pipeline
                    (first_reading runtime pipeline idna env rule raw domain s).0 parsed)
                  _ read (kept refl)
                  λ _.
                    continue-Leaves
                      (not_registration runtime rule parsed (runtime.registration_values raw)) _
                      read (kept refl)
                      λ _.
                        continue-Leaves checked.0 _ checked.1 gate5-Leaves.left
                          (λ _. record { left = gate5-Leaves.left })

  -- A call of `validate` changes the cache at most at a key of the domain's tld, where it then has the
  -- text that was fetched, which is not blank, with the instant that gate 5 read.
  pub validate-Entry :
      (key : Text × Text)
      → Entry key (Dict.get (validate runtime pipeline idna env rule raw domain s).1.cache key)
  validate-Entry key = (validate-Leaves key).left

  module _ (fetch : DomainName → E → Result Text × E) (kg : DomainName) (at : Instant) (text : Text)
      (known : IsKnownGood runtime pipeline idna env rule raw domain s kg)
      (present : Dict.get s.cache (tld domain, kg.value) ≡ some (at, text))
      (young : (second_reading runtime pipeline idna env rule raw domain s).0
        < at + pipeline.revalidate_after_seconds * second) where
    gate5-unfetched :
        gate5 runtime pipeline idna
          (record env { fetch_raw = fetch })
          rule
          domain
          (record s { env = (first_reading runtime pipeline idna env rule raw domain s).1 })
        ≡ gate5 runtime pipeline idna env rule domain
            (record s { env = (first_reading runtime pipeline idna env rule raw domain s).1 })
    unfolding gate5 against cached_or_fetched fresh
    gate5-unfetched = rw (known, present, lt→ltb _ _ young) refl

    -- Where the known-good domain's text is in the cache and has not grown too old, nothing is
    -- fetched: the call is the same with any other fetcher.
    pub validate-unfetched :
        validate runtime pipeline idna (record env { fetch_raw = fetch }) rule raw domain s
        ≡ validate runtime pipeline idna env rule raw domain s
    unfolding validate
    validate-unfetched = continue-ext (gate1 runtime rule.expires_regex) _ _ s λ _ _.
        continue-ext (gate2 runtime rule.expires_regex raw) _ _ s λ captured _.
          continue-ext (or_gate3 captured (convert runtime captured rule)) _ _ s λ parsed _.
            continue-ext
              (in_range runtime pipeline
                (first_reading runtime pipeline idna env rule raw domain s).0 parsed)
              _ _ _
              λ _ _.
                continue-ext
                  (not_registration runtime rule parsed (runtime.registration_values raw)) _ _ _
                  λ _ _.
                    ap (λ p. continue p.0 (λ _ t. (gate6 runtime parsed, t)) p.1) gate5-unfetched
