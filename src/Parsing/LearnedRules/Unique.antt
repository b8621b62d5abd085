-- ===== src/Parsing/LearnedRules/Unique.antt =====
-- The rules that `MemoryLearnedRulesRepo` holds: no two that are not disabled share their tld and
-- their regex, and the ids are below the next one.
use domain_watcher.Checking.{differ}
use domain_watcher.Notification.{hex_re}
use domain_watcher.Dict
use domain_watcher.Dict.{Dict, values, get-insert}
use domain_watcher.Parsing.Engine.{Runtime}
use domain_watcher.Parsing.{ParseRule, LearnedRule, make_learned, capture_groups, is_custom}
use domain_watcher.Parsing.LearnedRules.Counting.{
  count, count-none, absent, count-insert_new, count-insert_old, below-insert, below-suc, below-get,
}
use domain_watcher.Parsing.LearnedRules.{
  LearnedRules, no_rules, is_active, Sample, learned_from, disabled_of, revalidated_of, store_rule,
  construct, add, replace, disable, mark_revalidated,
}
use domain_watcher.Prelude.{
  ℕ, ◌+◌, ◌≤◌, ◌<◌, ◌≡◌, refl, Bool, true, false, not, is_some, ltb, List, [], ◌∷◌, any, nat_eq,
  list_eq, arith, All, Option-cases, Bool-cases, eq_iff, ◌⊎◌, inl, inr, sym,
}
use domain_watcher.Shared.Errors.{Error, value_error, Result, ok, raise, ◌>>=◌, ◌>>◌, raise_if}
use domain_watcher.Shared.Text.{Text, is_empty}
use domain_watcher.Shared.Time.{Instant}

-- Of the rules that are not disabled, at most one has a given tld and a given regex; and every id
-- is below the next one.
pub IsUnique : LearnedRules → Type 0
IsUnique s = ((t x : Text) → count (is_active t x) s.by_id ≤ 1) × All (λ e. e.0 < s.next_id) s.by_id

-- a result that is this value or an exception
abbrev Keeps : {A : Type 0} → A → Result A → Type 0
Keeps a m = (m ≡ ok a) ⊎ ((e : Error) × (m ≡ raise e))

guard-Keeps :
    {A : Type 0} (b : Bool) (e : Error) (a : A) (m : Result A)
    → Keeps a m
    → Keeps a (raise_if b e >> m)
guard-Keeps true e a m h = inr (e, refl)
guard-Keeps false e a m h = h

bind-Keeps :
    {A B : Type 0} (n : Result B) (a : A) (m : Result A) → Keeps a m → Keeps a (n >>= λ _. m)
bind-Keeps (ok b) a m h = h
bind-Keeps (raise e) a m h = inr (e, refl)

module _ (runtime : Runtime) where
  make_learned-Keeps : (r : LearnedRule) → Keeps r (make_learned runtime r)
  unfolding make_learned
  make_learned-Keeps r = guard-Keeps (is_empty r.tld) value_error r _ (
      guard-Keeps (not (hex_re 64 r.sample_whois_sha256)) value_error r _ (
        guard-Keeps (ltb r.pipeline_version 1) value_error r _ (
          guard-Keeps (is_empty r.suggester_id) value_error r _ (
            guard-Keeps (differ (is_custom r.date_format) (is_some r.strptime_format)) value_error r
              (ok r) (inl refl)))))

  construct-Keeps : (r : LearnedRule) → Keeps r (construct runtime r)
  unfolding construct
  construct-Keeps r = bind-Keeps (capture_groups runtime r.expires_regex) r _ (make_learned-Keeps r)

  store_rule-IsUnique :
      (rid : ℕ) (m : Result LearnedRule) (r : LearnedRule) (s : LearnedRules)
      → Keeps r m
      → IsUnique s
      → ((t x : Text) → count (is_active t x) (Dict.insert s.by_id rid r) ≤ 1)
      → rid < s.next_id
      → IsUnique (store_rule runtime rid m s).1
  unfolding store_rule IsUnique
  store_rule-IsUnique rid m r s (inl e) u h b = rw e (h, below-insert s.next_id rid s.by_id r b u.1)
  store_rule-IsUnique rid m r s (inr (x, e)) u h b = rw e u

  grown-IsUnique : (s : LearnedRules) → IsUnique s → IsUnique (record s { next_id = s.next_id + 1 })
  unfolding IsUnique
  grown-IsUnique s (u, b) = (u, below-suc s.next_id s.by_id b)

  is_active-learned :
      (rule : ParseRule) (sample : Sample) (rid : ℕ) (now : Instant) (t x : Text)
      → is_active t x (learned_from rule sample rid now) ≡ true
      → (rule.tld ≡ t) × (rule.expires_regex ≡ x)
  unfolding is_active learned_from
  is_active-learned rule sample rid now t x h =
      ground (arith, eq_iff rule.tld t, eq_iff rule.expires_regex x)

  fresh_unique :
      (rule : ParseRule) (sample : Sample) (now : Instant) (s : LearnedRules) (t x : Text)
      → IsUnique s
      → any (is_active rule.tld rule.expires_regex) (values s.by_id) ≡ false
      → count
          (is_active t x)
          (Dict.insert s.by_id s.next_id (learned_from rule sample s.next_id now))
        ≤ 1
  unfolding IsUnique
  fresh_unique rule sample now s t x u e =
      let r = learned_from rule sample s.next_id now in
      let grown =
        count-insert_new (is_active t x) s.by_id s.next_id r (absent s.next_id s.by_id u.1) in
      elim (Bool-cases (is_active t x r)) [
        | inl a ↦
            let (p, q) = is_active-learned rule sample s.next_id now t x a in
            let none_there = count-none (is_active rule.tld rule.expires_regex) s.by_id e in
            rw (grown, a, sym p, sym q, none_there) (omega arith)
        | inr a ↦ rw (grown, a) (omega (arith, u.0 t x))
      ]

  add-IsUnique :
      (rule : ParseRule) (sample : Sample) (now : Instant) (s : LearnedRules)
      → IsUnique s
      → IsUnique (add runtime rule sample now s).1
  unfolding add
  add-IsUnique rule sample now s u =
      elim (Bool-cases (any (is_active rule.tld rule.expires_regex) (values s.by_id))) [
        | inl e ↦ rw e u
        | inr e ↦ rw e (
            store_rule-IsUnique s.next_id
              (construct runtime (learned_from rule sample s.next_id now))
              (learned_from rule sample s.next_id now) (record s { next_id = s.next_id + 1 })
              (construct-Keeps (learned_from rule sample s.next_id now)) (grown-IsUnique s u)
              (λ t x. fresh_unique rule sample now s t x u e) (omega arith))
      ]

  replace-IsUnique :
      (rid : ℕ) (f : LearnedRule → LearnedRule) (s : LearnedRules)
      → ((t x : Text) (r : LearnedRule) → is_active t x (f r) ≡ true → is_active t x r ≡ true)
      → IsUnique s
      → IsUnique (replace runtime rid f s).1
  unfolding IsUnique replace count
  replace-IsUnique rid f s h u = elim (Option-cases (Dict.get s.by_id rid)) [
    | inl e ↦ rw (e, replace) u
    | inr (r, e) ↦
        rw (e, replace)
          (store_rule-IsUnique rid _ (f r) s (make_learned-Keeps (f r)) u
            (λ t x.
              omega
                (arith, count-insert_old (is_active t x) s.by_id rid r (f r) e (h t x r), u.0 t x))
            (below-get s.next_id rid s.by_id r e u.1))
  ]

  is_active-disabled :
      (t x : Text) (r : LearnedRule) → is_active t x (disabled_of r) ≡ true → is_active t x r ≡ true
  unfolding is_active disabled_of
  is_active-disabled t x r h = ground arith

  is_active-revalidated :
      (at : Instant) (t x : Text) (r : LearnedRule)
      → is_active t x (revalidated_of at r) ≡ true
      → is_active t x r ≡ true
  unfolding is_active revalidated_of
  is_active-revalidated at t x r h = h

  -- the calls that change the repository
  pub data Call : Type 0 where
    adding : ParseRule → Sample → Instant → Call
    disabling : ℕ → Call
    marking : ℕ → Instant → Call

  unfoldable pub call : Call → LearnedRules → LearnedRules
  call (adding rule sample now) s = (add runtime rule sample now s).1
  call (disabling rid) s = (disable runtime rid s).1
  call (marking rid at) s = (mark_revalidated runtime rid at s).1

  unfoldable pub calls : List Call → LearnedRules → LearnedRules
  calls [] s = s
  calls (c ∷ cs) s = calls cs (call c s)

  call-IsUnique : (c : Call) (s : LearnedRules) → IsUnique s → IsUnique (call c s)
  unfolding call disable mark_revalidated
  call-IsUnique (adding rule sample now) s u = add-IsUnique rule sample now s u
  call-IsUnique (disabling rid) s u = replace-IsUnique rid disabled_of s is_active-disabled u
  call-IsUnique (marking rid at) s u =
      replace-IsUnique rid (revalidated_of at) s (is_active-revalidated at) u

  calls-IsUnique : (cs : List Call) (s : LearnedRules) → IsUnique s → IsUnique (calls cs s)
  unfolding calls
  calls-IsUnique [] s u = u
  calls-IsUnique (c ∷ cs) s u = calls-IsUnique cs (call c s) (call-IsUnique c s u)

  -- After any calls of `add`, `disable` and `mark_revalidated` on a new repository, whether they
  -- raise or not, at most one rule that is not disabled has a given tld and a given regex, and
  -- every id is below the next one.
  pub reachable-IsUnique : (cs : List Call) → IsUnique (calls cs no_rules)
  unfolding IsUnique no_rules count
  reachable-IsUnique cs = calls-IsUnique cs no_rules ((λ t x. omega arith), tt)
