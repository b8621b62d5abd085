-- ===== src/Application/Aps/Target.antt =====
-- The jobs that `ApsScheduler.reconcile` leaves.
use domain_watcher.Application.Aps.InStep.{InStep, cleared, settle_job-InStep}
use domain_watcher.Application.Aps.{
  AsyncIoScheduler, ApsScheduler, revalidation_job_id, remove_if_there, Run, add_aps_job, note,
  discard, settle_job, settle_all, drop_missing, reconcile,
}
use domain_watcher.Application.Scheduling.{Jobs, fill}
use domain_watcher.Application.Scheduling.Reconciled.{
  or_option, wanted, get-fill_all, fill-IsDict, keys-get,
}
use domain_watcher.Dict
use domain_watcher.Dict.{keys, contains, IsDict, get-nil, get-insert, get-remove}
use domain_watcher.Monitoring.{MonitoredDomain}
use domain_watcher.Prelude.{
  ◌≡◌, refl, Bool, true, false, not, ◌||◌, ◌&&◌, Option, none, some, List, [], ◌∷◌, ◌==◌, nat_eq,
  list_eq, Eq, any, if◌then◌else◌, Bool-cases, inl, inr, arith, eq_iff, eq_refl, is_some, ap, ◌∙◌,
  sym,
}
use domain_watcher.Shared.Errors.{Result, Result-cases, ok, raise}
use domain_watcher.Shared.Exec.{continue, ◌>>◌}
use domain_watcher.Shared.Text.{Text}

module _ {J P : Type 0} ⦃e : Eq J⦄ (aps : AsyncIoScheduler J P) where
  -- A run that leaves these jobs, or raises what `from_crontab` raised for a text of these.
  abbrev pub Leaves :
      (Text → Option (Text × J)) → (Text → Type 0) → Result (Unit {0}) → ApsScheduler J P → Type 0
  Leaves f Bad (ok u) t = (k : Text) → Dict.get t.jobs k ≡ f k
  Leaves f Bad (raise x) t = (cron : Text) × (Bad cron × (aps.from_crontab cron ≡ raise x))

  add-Leaves :
      (replace : Bool) (id cron : Text) (job : J) (s : ApsScheduler J P)
      → (replace ≡ false → contains s.jobs id ≡ false)
      → InStep aps s
      → Leaves
          (λ k. if id == k then some (cron, job) else Dict.get s.jobs k)
          (λ c. c ≡ cron)
          ((add_aps_job aps replace id cron job >> note aps id cron job) s).0
          ((add_aps_job aps replace id cron job >> note aps id cron job) s).1
  unfolding add_aps_job
  add-Leaves replace id cron job s absent h = elim (Result-cases (aps.from_crontab cron)) [
    | inl (trigger, c) ↦
        let p = if replace then remove_if_there aps id s.scheduler else s.scheduler in
        let gone = cleared aps replace id s.scheduler (λ r. sym (h id) ∙ absent r) in
        rw (c, aps.add_job-ok id trigger job p gone) (λ k. get-insert s.jobs id k (cron, job))
    | inr (x, c) ↦ rw c (cron, (refl, c))
  ]

  settle_job-Leaves :
      (o : Option (Text × J)) (id cron : Text) (job : J) (s : ApsScheduler J P)
      → Dict.get s.jobs id ≡ o
      → InStep aps s
      → Leaves
          (λ k. if id == k then some (cron, job) else Dict.get s.jobs k)
          (λ c. c ≡ cron)
          (settle_job aps o id cron job s).0
          (settle_job aps o id cron job s).1
  unfolding settle_job
  settle_job-Leaves none id cron job s g h = add-Leaves false id cron job s (λ r. ap is_some g) h
  settle_job-Leaves (some (old, older)) id cron job s g h = elim (Bool-cases (old == cron)) [
    | inl same ↦ rw same (elim (Bool-cases (older == job)) [
      | inl kept ↦ rw kept (λ k. ground (arith, eq_iff id k, eq_iff old cron, eq_iff older job, g))
      | inr other ↦ rw other (add-Leaves true id cron job s (λ r. absurd (ground arith)) h)
    ])
    | inr moved ↦ rw moved (add-Leaves true id cron job s (λ r. absurd (ground arith)) h)
  ]

  -- a text of an entry of the target
  abbrev pub Targeted : Jobs J → Text → Type 0
  Targeted target cron = (k : Text) × ((job : J) × (Dict.get target k ≡ some (cron, job)))

  Leaves-map :
      {f g : Text → Option (Text × J)} {Bad Worse : Text → Type 0} (r : Result (Unit {0}))
      (t : ApsScheduler J P)
      → ((k : Text) → f k ≡ g k)
      → ((cron : Text) → Bad cron → Worse cron)
      → Leaves f Bad r t
      → Leaves g Worse r t
  Leaves-map (ok u) t same worse h = λ k. h k ∙ same k
  Leaves-map (raise x) t same worse (cron, (b, c)) = (cron, (worse cron b, c))

  sequence :
      {f : Text → Option (Text × J)} {Bad : Text → Type 0} (g : Text → Option (Text × J))
      (Worse : Text → Type 0) (r : Result (Unit {0})) (t : ApsScheduler J P) (rest : Run J P)
      → Leaves f Bad r t
      → ((cron : Text) → Bad cron → Worse cron)
      → (((k : Text) → Dict.get t.jobs k ≡ f k) → Leaves g Worse (rest t).0 (rest t).1)
      → Leaves g Worse (continue r (λ u. rest) t).0 (continue r (λ u. rest) t).1
  sequence g Worse (ok u) t rest h worse k = k h
  sequence g Worse (raise x) t rest (cron, (b, c)) worse k = (cron, (worse cron b, c))

  or_option-cons :
      (target jobs before : Jobs J) (id cron : Text) (job : J) (k : Text)
      → Dict.get target id ≡ none
      → Dict.get jobs k ≡ (if id == k then some (cron, job) else Dict.get before k)
      → or_option (Dict.get target k) (Dict.get jobs k)
        ≡ or_option (Dict.get ((id, (cron, job)) ∷ target) k) (Dict.get before k)
  unfolding Dict.get
  or_option-cons target jobs before id cron job k new h = elim (Bool-cases (id == k)) [
    | inl same ↦ rw (h, same, ← (eq_iff id k).0 same, new) refl
    | inr other ↦ rw (h, other) refl
  ]

  Targeted-cons :
      (target : Jobs J) (id cron : Text) (job : J)
      → Dict.get target id ≡ none
      → (c : Text) → Targeted target c
      → Targeted ((id, (cron, job)) ∷ target) c
  unfolding Dict.get
  Targeted-cons target id cron job new c (k, (j, g)) = elim (Bool-cases (id == k)) [
    | inl same ↦ absurd (ground (arith, eq_iff id k))
    | inr other ↦ (k, (j, rw other g))
  ]

  settle_all-Leaves :
      (target : Jobs J) (s : ApsScheduler J P)
      → IsDict target
      → InStep aps s
      → Leaves
          (λ k. or_option (Dict.get target k) (Dict.get s.jobs k))
          (Targeted target)
          (settle_all aps target s).0
          (settle_all aps target s).1
  unfolding settle_all Dict.get
  settle_all-Leaves [] s d h = λ k. refl
  settle_all-Leaves ((id, (cron, job)) ∷ target) s (new, d) h =
      let o = Dict.get s.jobs id in
      let run = settle_job aps o id cron job s in
      sequence (λ k. or_option (Dict.get ((id, (cron, job)) ∷ target) k) (Dict.get s.jobs k))
        (Targeted ((id, (cron, job)) ∷ target)) run.0 run.1 (settle_all aps target)
        (settle_job-Leaves o id cron job s refl h)
        (λ c same. (id, (job, rw (eq_refl id, same) refl)))
        (λ left.
          Leaves-map (settle_all aps target run.1).0 (settle_all aps target run.1).1
            (λ k. or_option-cons target run.1.jobs s.jobs id cron job k new (left k))
            (Targeted-cons target id cron job new)
            (settle_all-Leaves target run.1 d (settle_job-InStep aps o id cron job s refl h)))

  get-drop_missing :
      (ids : List Text) (target : Jobs J) (s : ApsScheduler J P) (k : Text)
      → Dict.get (drop_missing aps ids target s).jobs k ≡ (
          if any (λ i. i == k) ids && not (contains target k || k == revalidation_job_id)
          then none
          else Dict.get s.jobs k)
  unfolding drop_missing any
  get-drop_missing [] target s k = refl
  get-drop_missing (id ∷ ids) target s k =
      elim (Bool-cases (contains target id || id == revalidation_job_id)) [
        | inl keeps ↦
            rw (keeps, drop_missing) (ground (arith, get-drop_missing ids target s k, eq_iff id k))
        | inr goes ↦
            rw (goes, drop_missing)
              (ground (
                arith,
                get-drop_missing ids target (discard aps id s) k,
                get-remove s.jobs id k,
                eq_iff id k,
              ))
      ]

  -- What `reconcile` makes of the entry of an id: of the wanted one and of the one before.
  abbrev pub reconciled : Text → Option (Text × J) → Option (Text × J) → Option (Text × J)
  reconciled k (some entry) before = some entry
  reconciled k none before = if k == revalidation_job_id then before else none

  dropped :
      (k : Text) (w before : Option (Text × J)) (there : Bool)
      → (there ≡ false → or_option w before ≡ none)
      → (if there && not (is_some w || k == revalidation_job_id) then none else or_option w before)
        ≡ reconciled k w before
  dropped k (some entry) before there h = ground arith
  dropped k none before there h = ground (arith, h)

  -- `reconcile` ends with the entry of the last of the domains for each of their job ids, and
  -- without any other job but the revalidation job, which stays as it was. Otherwise it raises what
  -- `from_crontab` raised for the cron text of one of these entries.
  pub reconcile-Leaves :
      (factory : MonitoredDomain → J) (domains : List MonitoredDomain) (s : ApsScheduler J P)
      → ((k : Text) → contains s.jobs k ≡ aps.has_job k s.scheduler)
      → Leaves
          (λ k. reconciled k (wanted factory domains k) (Dict.get s.jobs k))
          (Targeted (fill factory domains []))
          (reconcile aps factory domains s).0
          (reconcile aps factory domains s).1
  unfolding reconcile
  reconcile-Leaves factory domains s h =
      let target = fill factory domains [] in
      let run = settle_all aps target s in
      let drop : Run J P = λ t. (ok tt, drop_missing aps (keys t.jobs) target t) in
      sequence (λ k. reconciled k (wanted factory domains k) (Dict.get s.jobs k)) (Targeted target)
        run.0 run.1 drop (settle_all-Leaves target s (fill-IsDict factory domains [] tt) h)
        (λ c b. b)
        (λ left k.
          let there = get-fill_all factory domains k in
          let now : Dict.get run.1.jobs k
              ≡ or_option (wanted factory domains k) (Dict.get s.jobs k) =
            rw (← there) (left k) in
          get-drop_missing (keys run.1.jobs) target run.1 k
          ∙ rw (now, there)
              (dropped k (wanted factory domains k) (Dict.get s.jobs k)
                (any (λ i. i == k) (keys run.1.jobs))
                (λ gone. sym now ∙ keys-get run.1.jobs k gone)))
