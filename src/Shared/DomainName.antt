-- ===== src/Shared/DomainName.antt =====
-- `DomainName` of core/shared/value_objects.py. The IDNA codec of Python is a parameter: the
-- encoded text, or nothing where the codec raises.
use domain_watcher.Prelude.{
  ℕ, Bool, true, false, ◌&&◌, ◌||◌, not, List, [], ◌∷◌, Option, none, some, leb, ltb, if◌then◌else◌,
  ◌==◌, nat_eq, list_eq, length, map, all, any,
}
use domain_watcher.Shared.Errors.{Result, ok, raise, value_error, raise_if, ◌>>=◌, ◌>>◌}
use domain_watcher.Shared.Text.{Text, lit, is_empty, strip, drop_end, to_lower, split_on, join}

pub record DomainName : Type 0 where
  pub value : Text

abbrev pub dot : ℕ
dot = b'.'

unfoldable pub is_alnum : ℕ → Bool
is_alnum c = leb b'a' c && leb c b'z' || leb b'0' c && leb c b'9'

-- `[a-z0-9-]*[a-z0-9]`, or nothing
unfoldable pub label_rest : Text → Bool
unfolding is_alnum
label_rest [] = true
label_rest (c ∷ []) = is_alnum c
label_rest (c ∷ d ∷ s) = (is_alnum c || c == b'-') && label_rest (d ∷ s)

-- the whole text matches `[a-z0-9](?:[a-z0-9-]{0,61}[a-z0-9])?`
unfoldable pub label_body : Text → Bool
unfolding label_rest
label_body [] = false
label_body (c ∷ s) = is_alnum c && label_rest s && leb (length s) 62

-- `$` also matches in front of a line feed that ends the text
unfoldable pub drop_newline : Text → Text
drop_newline [] = []
drop_newline (c ∷ []) = if c == b'\n' then [] else c ∷ []
drop_newline (c ∷ d ∷ s) = c ∷ drop_newline (d ∷ s)

-- `_LABEL_RE.match(label)`
unfoldable pub label_re : Text → Bool
unfolding label_body drop_newline
label_re s = label_body s || label_body (drop_newline s)

-- the loop over the labels: the tests of one round, in their order
unfoldable pub is_label : Text → Bool
unfolding label_re
is_label label = not (is_empty label) && leb (length label) 63 && label_re label

unfoldable pub is_ascii : Text → Bool
is_ascii = all (λ c. ltb c 128)

abbrev pub is_dot : ℕ → Bool
is_dot c = c == dot

-- `.join` of the last labels, read from the label that starts the tail
unfoldable pub last_labels : ℕ → List Text → List Text
last_labels n [] = []
last_labels n (f ∷ fs) =
    let rest = last_labels n fs in if leb (length (f ∷ fs)) n then f ∷ fs else rest

unfoldable pub double_tlds : List Text
unfolding lit
double_tlds = lit "co.uk" ∷ lit "com.br" ∷ lit "co.jp" ∷ lit "org.uk" ∷ lit "gov.uk" ∷ []

-- `tail in _DOUBLE_TLDS`
unfoldable pub is_double_tld : Text → Bool
unfolding double_tlds any
is_double_tld t = any (λ d. d == t) double_tlds

-- `labels[-1]`; `split` never returns an empty list
unfoldable pub last_label : List Text → Text
last_label [] = []
last_label (f ∷ []) = f
last_label (f ∷ g ∷ fs) = last_label (g ∷ fs)

-- `DomainName.tld`
unfoldable pub tld : DomainName → Text
unfolding split_on last_labels join is_double_tld last_label
tld d =
    let labels = split_on dot d.value in
    let tail = join dot (last_labels 2 labels) in
    if leb 2 (length labels) && is_double_tld tail then tail else last_label labels

module _ (idna : Text → Option Text) where
  -- ASCII as it is, anything else through `_to_punycode`
  unfoldable pub to_ascii : Text → Result Text
  unfolding is_ascii all
  to_ascii s =
      if is_ascii s then ok s else elim (idna s) [ some t ↦ ok t | none ↦ raise value_error ]

  -- the part of `__post_init__` behind the empty texts
  unfoldable pub normalise : Text → Result DomainName
  unfolding to_ascii to_lower split_on is_label all
  normalise s = do
    t ← to_ascii s
    raise_if (ltb 253 (length (map to_lower t))) value_error
    raise_if (not (all is_label (split_on dot (map to_lower t)))) value_error
    ok (record { value = map to_lower t })

  -- `DomainName(value=raw)`, with `__post_init__`
  unfoldable pub make : Text → Result DomainName
  unfolding normalise strip drop_end
  make raw = do
    raise_if (is_empty raw) value_error
    raise_if (is_empty (drop_end is_dot (strip raw))) value_error
    normalise (drop_end is_dot (strip raw))

  -- the labels that `DomainName.registrable` keeps
  unfoldable pub registrable_labels : List Text → List Text
  unfolding last_labels join is_double_tld
  registrable_labels labels =
      if leb 3 (length labels) && is_double_tld (join dot (last_labels 2 labels))
      then last_labels 3 labels
      else if leb 2 (length labels)
      then last_labels 2 labels
      else labels

  -- `DomainName.registrable`
  unfoldable pub registrable : DomainName → Result DomainName
  unfolding registrable_labels make split_on join
  registrable d = make (join dot (registrable_labels (split_on dot d.value)))
