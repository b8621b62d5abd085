-- ===== src/Parsing/Validation/Gates.antt =====
-- The gates of infrastructure/parsers/validation_pipeline.py that change nothing, the tests of gate 5
-- included. The settings are no negative numbers, and a difference of instants has no rounding, where
-- `total_seconds` has a float's.
use domain_watcher.Dict
use domain_watcher.Dict.{Dict}
use domain_watcher.Parsing.Engine.{Runtime}
use domain_watcher.Parsing.Regex.{convert}
use domain_watcher.Parsing.{ParseRule, capture_groups}
use domain_watcher.Prelude.{
  ℕ, ◌+◌, ◌-◌, ◌*◌, Bool, not, Option, none, some, List, [], ◌∷◌, ◌++◌, any, ◌==◌, nat_eq, list_eq,
  pair_eq, ltb, leb, if◌then◌else◌,
}
use domain_watcher.Shared.Decimal.{decimal}
use domain_watcher.Shared.DomainName.{DomainName, tld, make}
use domain_watcher.Shared.Errors.{
  Result, ok, raise, rule_validation_error, is_parse_error, message, raise_if, ◌>>=◌, ◌>>◌,
}
use domain_watcher.Shared.Text.{Text, lit, repr}
use domain_watcher.Shared.Time.{Instant, second}

abbrev pub day : Instant
day = 86400 * second

-- `datetime.max`
abbrev pub datetime_max : Instant
datetime_max = 3652059 * day - 1

-- `_SENTINEL_DATES`: the first days of 1970, 1900 and 2000, and the last of 9999
abbrev pub sentinel_dates : List Instant
sentinel_dates = 719162 * day ∷ 693595 * day ∷ 730119 * day ∷ 3652058 * day ∷ []

-- `parsed in _SENTINEL_DATES`
unfoldable pub is_sentinel : Instant → Bool
unfolding any
is_sentinel parsed = any (λ d. d == parsed) sentinel_dates

-- the settings
pub record ValidationPipeline : Type 0 where
  pub max_age_years : ℕ
  pub revalidate_after_seconds : ℕ
  pub known_good : Dict Text (List Text)

-- `{captured!r}`
abbrev pub repr_captured : Option Text → Text
repr_captured none = lit "None"
repr_captured (some s) = repr s

-- a search whose failure is a rejection
unfoldable pub matched : {A : Type 0} → Option A → Text → Result A
matched none m = raise (rule_validation_error m)
matched (some a) m = ok a

-- gate 3: `except ParseError as exc`
unfoldable pub or_gate3 : Option Text → Result Instant → Result Instant
or_gate3 captured (ok d) = ok d
or_gate3 captured (raise e) =
    if is_parse_error e
    then raise (
        rule_validation_error (
          lit "gate3: captured value "
          ++ (repr_captured captured ++ (lit " did not parse: " ++ message e))))
    else raise e

-- one round of the loop over the registration lines
unfoldable pub unless_same : Result Instant → Instant → Result (Unit {0}) → Result (Unit {0})
unless_same (ok d) parsed rest =
    if d == parsed
    then raise (
        rule_validation_error
          (lit "gate4: rule extracted the registration date, not the expiration"))
    else rest
unless_same (raise e) parsed rest = if is_parse_error e then rest else raise e

-- the loop over the candidates
unfoldable pub known_good_for :
    (Text → Option Text) → DomainName → List Text → Result (Option DomainName)
known_good_for idna domain [] = ok none
known_good_for idna domain (c ∷ cs) =
    let rest = known_good_for idna domain cs in
    make idna c >>= λ d. if d.value == domain.value then rest else ok (some d)

module _ (pipeline : ValidationPipeline) where
  -- `max_future`; the sum is past `datetime.max` wherever Python raises `OverflowError`
  abbrev pub max_future : Instant → Instant
  max_future now =
      let end = now + 365 * pipeline.max_age_years * day in
      if ltb datetime_max end then datetime_max else end

  -- the cached text, if there is one and it is not too old
  unfoldable pub fresh : Option (Instant × Text) → Instant → Option Text
  fresh none now = none
  fresh (some (at, raw)) now =
      if ltb now (at + pipeline.revalidate_after_seconds * second) then some raw else none

  -- `self.known_good.get(domain.tld, ())`
  abbrev pub candidates : DomainName → List Text
  candidates domain = elim (Dict.get pipeline.known_good (tld domain)) [ none ↦ [] | some l ↦ l ]

module _ (runtime : Runtime) where
  open runtime use {search, isoformat}

  unfoldable pub gate1 : Text → Result (Unit {0})
  gate1 raw = do
    n ← capture_groups runtime raw
    raise_if (not (n == 1)) (
        rule_validation_error
          (lit "gate1: regex must have exactly one capture group, has " ++ decimal n []))

  unfoldable pub gate2 : Text → Text → Result (Option Text)
  unfolding matched
  gate2 raw text =
      matched (search raw text)
        (lit "gate2: rule did not match the WHOIS text it was suggested for")

  -- the loop over `_REGISTRATION_LINE_RE.finditer(raw_whois)`
  unfoldable pub not_registration : ParseRule → Instant → List Text → Result (Unit {0})
  unfolding unless_same
  not_registration rule parsed [] = ok tt
  not_registration rule parsed (v ∷ vs) =
      unless_same (convert runtime (some v) rule) parsed (not_registration rule parsed vs)

  unfoldable pub gate6 : Instant → Result (Unit {0})
  gate6 parsed = raise_if (is_sentinel parsed) (
      rule_validation_error
        (lit "gate6: parsed value " ++ (isoformat parsed ++ lit " is a sentinel/default date")))

  -- the match at the end of `_gate5`
  unfoldable pub match_known_good : ParseRule → DomainName → Option Text → Result (Unit {0})
  unfolding matched
  match_known_good rule kg none = ok tt
  match_known_good rule kg (some raw) =
      matched (search rule.expires_regex raw) (
        lit "gate5: rule did not match known-good "
        ++ (kg.value ++ lit " WHOIS — likely overfit to one sample"))
      >>= λ group. ok tt

  -- the two tests of the range in gate 4
  unfoldable pub in_range : ValidationPipeline → Instant → Instant → Result (Unit {0})
  in_range pipeline now parsed = do
    raise_if (leb parsed now) (
        rule_validation_error
          (lit "gate4: parsed expiration " ++ (isoformat parsed ++ lit " is not in the future")))
    raise_if (ltb (max_future pipeline now) parsed) (
        rule_validation_error (
          lit "gate4: parsed expiration "
          ++ (isoformat parsed
              ++ (lit " is more than " ++ decimal pipeline.max_age_years (lit "y in the future")))))
