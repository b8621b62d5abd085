-- ===== src/Parsing/Regex.antt =====
-- `RegexWhoisParser` of infrastructure/parsers/regex.py, and the conversion of a captured text.
use domain_watcher.Parsing.Engine.{Runtime, Attempt, done, failure, escape}
use domain_watcher.Parsing.{
  ParseRule, DateFormat, iso_8601, rfc_3339, dd_mmm_yyyy, yyyy_mm_dd, epoch_seconds, custom,
}
use domain_watcher.Prelude.{
  ℕ, Bool, true, false, not, Option, none, some, List, [], ◌∷◌, ◌++◌, map, ◌==◌, nat_eq, list_eq,
  if◌then◌else◌,
}
use domain_watcher.Shared.DomainName.{DomainName, tld}
use domain_watcher.Shared.Errors.{
  Error, Result, ok, raise, parse_error, no_matching_rule_error, exception, is_parse_error, ◌>>=◌,
}
use domain_watcher.Shared.Text.{Text, lit, strip, to_lower, split_on, repr}
use domain_watcher.Shared.Time.{Instant, Datetime, aware, naive}

-- `except ValueError as exc: raise ParseError(…)`
unfoldable pub or_parse_error : {A : Type 0} → Attempt A → (Text → Text) → Result A
or_parse_error (done a) m = ok a
or_parse_error (failure t) m = raise (parse_error (m t))
or_parse_error (escape t) m = raise (exception t)

-- f"… {captured!r}: {exc}"
abbrev pub explained : Text → Text → Text → Text
explained what captured exc = what ++ (repr captured ++ (lit ": " ++ exc))

-- `captured.endswith("Z")`
unfoldable pub ends_with_z : Text → Bool
ends_with_z [] = false
ends_with_z (c ∷ []) = c == b'Z'
ends_with_z (c ∷ d ∷ s) = ends_with_z (d ∷ s)

-- `captured.replace("Z", "+00:00")`
unfoldable pub replace_z : Text → Text
replace_z [] = []
replace_z (c ∷ s) = (if c == b'Z' then lit "+00:00" else c ∷ []) ++ replace_z s

unfoldable pub month_of : Text → Option ℕ
unfolding lit
month_of s =
    if s == lit "jan"
    then some 1
    else if s == lit "feb"
    then some 2
    else if s == lit "mar"
    then some 3
    else if s == lit "apr"
    then some 4
    else if s == lit "may"
    then some 5
    else if s == lit "jun"
    then some 6
    else if s == lit "jul"
    then some 7
    else if s == lit "aug"
    then some 8
    else if s == lit "sep"
    then some 9
    else if s == lit "oct"
    then some 10
    else if s == lit "nov"
    then some 11
    else if s == lit "dec"
    then some 12
    else none

abbrev pub first_three : Text → Text
first_three (a ∷ b ∷ c ∷ s) = a ∷ b ∷ c ∷ []
first_three s = s

module _ (runtime : Runtime) where
  open runtime use {search, parse_int, from_iso, strptime, date, from_timestamp, zone}

  -- `_parse_iso_like`
  unfoldable pub parse_iso_like : Text → Result Datetime
  unfolding ends_with_z replace_z or_parse_error
  parse_iso_like captured =
      or_parse_error (from_iso (if ends_with_z captured then replace_z captured else captured))
        (explained (lit "unparseable ISO/RFC3339 datetime ") captured)

  -- `_parse_yyyy_mm_dd`
  unfoldable pub parse_yyyy_mm_dd : Text → Result Datetime
  unfolding or_parse_error
  parse_yyyy_mm_dd captured =
      or_parse_error (strptime (strip captured) (lit "%Y-%m-%d"))
        (explained (lit "unparseable yyyy-mm-dd ") captured)

  -- the part of `_parse_dd_mmm_yyyy` behind the count of the parts
  unfoldable pub parse_dmy : Text → Text → Text → Text → Result Datetime
  unfolding or_parse_error month_of
  parse_dmy captured day_s mon_s year_s = do
    day ← or_parse_error (parse_int day_s) (explained (lit "unparseable dd-mmm-yyyy ") captured)
    year ← or_parse_error (parse_int year_s) (explained (lit "unparseable dd-mmm-yyyy ") captured)
    elim (month_of (first_three (map to_lower mon_s))) [
      | none ↦ raise (parse_error (lit "unknown month abbreviation in " ++ repr captured))
      | some month ↦
          or_parse_error (date year month day)
            (explained (lit "invalid dd-mmm-yyyy date ") captured)
    ]

  abbrev dmy_parts : Text → List Text → Result Datetime
  dmy_parts captured (d ∷ m ∷ y ∷ []) = parse_dmy captured d m y
  dmy_parts captured parts = raise (parse_error (lit "unparseable dd-mmm-yyyy " ++ repr captured))

  -- `_parse_dd_mmm_yyyy`
  unfoldable pub parse_dd_mmm_yyyy : Text → Result Datetime
  unfolding parse_dmy
  parse_dd_mmm_yyyy captured = dmy_parts captured (split_on b'-' (strip captured))

  -- `_parse_epoch`: only `int` stands in the `try`
  unfoldable pub parse_epoch : Text → Result Instant
  unfolding or_parse_error
  parse_epoch captured = do
    seconds ←
        or_parse_error (parse_int (strip captured))
          (explained (lit "unparseable epoch seconds ") captured)
    elim (from_timestamp seconds) [
      | done i ↦ ok i
      | failure m ↦ raise (exception m)
      | escape m ↦ raise (exception m)
    ]

  -- `_parse_custom`
  unfoldable pub parse_custom : Text → Text → Result Datetime
  unfolding or_parse_error
  parse_custom captured fmt = or_parse_error (strptime (strip captured) fmt) (λ exc.
      lit "unparseable "
      ++ (repr captured
          ++ (lit " under custom strptime format " ++ (repr fmt ++ (lit ": " ++ exc)))))

  -- `_to_utc`
  unfoldable pub to_utc : Text → Datetime → Result Instant
  unfolding or_parse_error
  to_utc name (aware i) = ok i
  to_utc name (naive n) = do
    at ← or_parse_error (zone name) (λ exc. lit "unknown timezone " ++ repr name)
    at n

  abbrev convert_custom : Text → Option Text → Result Datetime
  convert_custom captured none =
      raise (parse_error (lit "custom date_format requires strptime_format"))
  convert_custom captured (some fmt) = parse_custom captured fmt

  -- the ladder of `_convert`
  unfoldable pub convert_as : DateFormat → Text → ParseRule → Result Instant
  unfolding parse_iso_like parse_yyyy_mm_dd parse_dd_mmm_yyyy parse_epoch parse_custom to_utc
  convert_as iso_8601 captured rule = parse_iso_like (strip captured) >>= to_utc rule.timezone
  convert_as rfc_3339 captured rule = parse_iso_like (strip captured) >>= to_utc rule.timezone
  convert_as yyyy_mm_dd captured rule = parse_yyyy_mm_dd captured >>= to_utc rule.timezone
  convert_as dd_mmm_yyyy captured rule = parse_dd_mmm_yyyy captured >>= to_utc rule.timezone
  convert_as epoch_seconds captured rule = parse_epoch captured
  convert_as custom captured rule =
      convert_custom captured rule.strptime_format >>= to_utc rule.timezone

  -- `_convert` on `None`: every branch calls a method of `str` on it, save the test in front of
  -- `_parse_custom`
  unfoldable pub convert_none : DateFormat → Option Text → Result Instant
  convert_none custom none = raise (parse_error (lit "custom date_format requires strptime_format"))
  convert_none _ _ = raise (exception (lit "'NoneType' object has no attribute 'strip'"))

  -- `_convert(match.group(1), rule)`: a group that took no part in the match is `None`
  unfoldable pub convert : Option Text → ParseRule → Result Instant
  unfolding convert_as convert_none
  convert none rule = convert_none rule.date_format rule.strptime_format
  convert (some captured) rule = convert_as rule.date_format captured rule

  -- what stands behind the loop of `parse`
  unfoldable pub no_rule : DomainName → Bool → Option Error → Result Instant
  no_rule domain attempted (some e) = raise e
  no_rule domain false none =
      raise (no_matching_rule_error (lit "no parse rule for tld " ++ repr (tld domain)))
  no_rule domain true none = raise (
      no_matching_rule_error (
        lit "no parse rule matched WHOIS body for "
        ++ (domain.value ++ (lit " (tld=" ++ (tld domain ++ lit ")")))))

  -- the end of one round: `return`, `continue` with the error kept, or an exception that is no
  -- `ParseError`
  unfoldable pub keep_trying : Result Instant → (Error → Result Instant) → Result Instant
  unfolding is_parse_error
  keep_trying (ok d) rest = ok d
  keep_trying (raise e) rest = let more = rest e in if is_parse_error e then more else raise e

  -- the loop over the rules, with `attempted` and `last_parse_error`
  unfoldable pub parse_loop :
      Text → DomainName → List ParseRule → Bool → Option Error → Result Instant
  unfolding keep_trying convert no_rule
  parse_loop raw domain [] attempted last = no_rule domain attempted last
  parse_loop raw domain (rule ∷ rules) attempted last =
      let skip = parse_loop raw domain rules attempted last in
      let unmatched = parse_loop raw domain rules true last in
      if not (rule.tld == tld domain) then skip else elim (search rule.expires_regex raw) [
        | none ↦ unmatched
        | some captured ↦
            keep_trying (convert captured rule) (λ e. parse_loop raw domain rules true (some e))
      ]

  -- `RegexWhoisParser.parse`
  unfoldable pub parse : Text → DomainName → List ParseRule → Result Instant
  unfolding parse_loop
  parse raw domain rules = parse_loop raw domain rules false none
