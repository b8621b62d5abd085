-- ===== src/Application/Scheduling/Reconciled.antt =====
-- What `MemoryScheduler.reconcile` leaves under each job id.
use domain_watcher.Application.Scheduling.{
  Jobs, jid, fill, is_stale, add_or_update, drop_missing, reconcile,
}
use domain_watcher.Dict
use domain_watcher.Dict.{
  Dict, keys, contains, IsDict, insert-IsDict, get-insert, get-remove, get-nil,
}
use domain_watcher.Monitoring.{MonitoredDomain}
use domain_watcher.Prelude.{
  ◌≡◌, refl, Bool, true, false, ◌&&◌, not, Option, none, some, List, [], ◌∷◌, ◌==◌, nat_eq, list_eq,
  if◌then◌else◌, arith, eq_iff, is_some, ◌∙◌, sym, any, ap,
}
use domain_watcher.Shared.Text.{Text}

module _ {J : Type 0} where
  -- the first option, or the second where there is none
  abbrev pub or_option : Option (Text × J) → Option (Text × J) → Option (Text × J)
  or_option none o = o
  or_option (some x) o = some x

  -- the job of the last of the domains that has this id
  unfoldable pub wanted : (MonitoredDomain → J) → List MonitoredDomain → Text → Option (Text × J)
  wanted factory [] j = none
  wanted factory (d ∷ ds) j =
      or_option (wanted factory ds j)
        (if jid d.name == j then some (d.schedule.cron, factory d) else none)

  -- what a wanted job and the one that is there become
  abbrev pub settled : Option (Text × J) → Option (Text × J) → Option (Text × J)
  settled none existing = none
  settled (some (cron, job)) none = some (cron, job)
  settled (some (cron, job)) (some (old, older)) =
      if old == cron then some (old, older) else some (cron, job)

  or_option-if :
      (w o : Option (Text × J)) (b : Bool) (x : Text × J)
      → or_option w (if b then some x else o)
        ≡ or_option (or_option w (if b then some x else none)) o
  or_option-if none o true x = refl
  or_option-if none o false x = refl
  or_option-if (some y) o b x = refl

  get-fill :
      (factory : MonitoredDomain → J) (ds : List MonitoredDomain) (target : Jobs J) (j : Text)
      → Dict.get (fill factory ds target) j ≡ or_option (wanted factory ds j) (Dict.get target j)
  unfolding fill wanted
  get-fill factory [] target j = refl
  get-fill factory (d ∷ ds) target j =
      rw
        (
          get-fill factory ds (Dict.insert target (jid d.name) (d.schedule.cron, factory d)) j,
          get-insert target (jid d.name) j (d.schedule.cron, factory d),
        )
        (or_option-if (wanted factory ds j) (Dict.get target j) (jid d.name == j) _)

  pub fill-IsDict :
      (factory : MonitoredDomain → J) (ds : List MonitoredDomain) (target : Jobs J)
      → IsDict target
      → IsDict (fill factory ds target)
  unfolding fill
  fill-IsDict factory [] target h = h
  fill-IsDict factory (d ∷ ds) target h =
      fill-IsDict factory ds _ (insert-IsDict target (jid d.name) (d.schedule.cron, factory d) h)

  -- a wanted job over the one that is there
  abbrev keep : Option (Text × J) → Option (Text × J) → Option (Text × J)
  keep none e = e
  keep (some (cron, job)) e = if is_stale e cron then some (cron, job) else e

  get-if :
      (b : Bool) (x y : Jobs J) (j : Text)
      → Dict.get (if b then x else y) j ≡ (if b then Dict.get x j else Dict.get y j)
  get-if true x y j = refl
  get-if false x y j = refl

  get-add_or_update :
      (target jobs : Jobs J) (j : Text)
      → IsDict target
      → Dict.get (add_or_update target jobs) j ≡ keep (Dict.get target j) (Dict.get jobs j)
  unfolding add_or_update Dict.get
  get-add_or_update [] jobs j h = refl
  get-add_or_update ((id, (cron, job)) ∷ target) jobs j (new, h) = ground (
    arith,
    get-add_or_update target
        (if is_stale (Dict.get jobs id) cron then Dict.insert jobs id (cron, job) else jobs) j h,
    get-if (is_stale (Dict.get jobs id) cron) (Dict.insert jobs id (cron, job)) jobs j,
    get-insert jobs id j (cron, job),
    eq_iff id j,
  )

  get-drop_missing :
      (ids : List Text) (target jobs : Jobs J) (j : Text)
      → Dict.get (drop_missing ids target jobs) j
        ≡ (if any (λ i. i == j) ids && not (contains target j) then none else Dict.get jobs j)
  unfolding drop_missing any
  get-drop_missing [] target jobs j = refl
  get-drop_missing (id ∷ ids) target jobs j = ground (
    arith,
    get-drop_missing ids target (if contains target id then jobs else Dict.remove jobs id) j,
    get-if (contains target id) jobs (Dict.remove jobs id) j,
    get-remove jobs id j,
    eq_iff id j,
  )

  -- a key that is not among the keys has no value
  pub keys-get : (d : Jobs J) (j : Text) → any (λ i. i == j) (keys d) ≡ false → Dict.get d j ≡ none
  unfolding any Dict.get
  keys-get [] j h = refl
  keys-get ((i, v) ∷ d) j h = ground (arith, keys-get d j)

  settled-keep :
      (t e : Option (Text × J)) (b : Bool)
      → (b ≡ false → keep t e ≡ none)
      → (if b && not (is_some t) then none else keep t e) ≡ settled t e
  unfolding is_stale
  settled-keep none e true h = refl
  settled-keep none e false h = h refl
  settled-keep (some (c, f)) none true h = refl
  settled-keep (some (c, f)) none false h = refl
  settled-keep (some (c, f)) (some (old, g)) true h = ground arith
  settled-keep (some (c, f)) (some (old, g)) false h = ground arith

  or_option-none : (o : Option (Text × J)) → or_option o none ≡ o
  or_option-none none = refl
  or_option-none (some x) = refl

  -- a target that is filled from nothing
  pub get-fill_all :
      (factory : MonitoredDomain → J) (ds : List MonitoredDomain) (j : Text)
      → Dict.get (fill factory ds []) j ≡ wanted factory ds j
  get-fill_all factory ds j =
      get-fill factory ds [] j
      ∙ rw (get-nil {V = Text × J} j) (or_option-none (wanted factory ds j))

  -- After `reconcile` a job id has the job of the last of the domains with this id, save that a job
  -- that was there with the same cron text stays as it was; an id of no domain has no job.
  pub get-reconcile :
      (factory : MonitoredDomain → J) (domains : List MonitoredDomain) (jobs : Jobs J) (j : Text)
      → Dict.get (reconcile factory domains jobs) j
        ≡ settled (wanted factory domains j) (Dict.get jobs j)
  unfolding reconcile
  get-reconcile factory domains jobs j =
      let target = fill factory domains [] in
      let updated = add_or_update target jobs in
      let kept : Dict.get updated j ≡ keep (Dict.get target j) (Dict.get jobs j) =
        get-add_or_update target jobs j (fill-IsDict factory domains [] tt) in
      get-drop_missing (keys updated) target updated j
      ∙ rw kept (
          settled-keep (Dict.get target j) (Dict.get jobs j) (any (λ i. i == j) (keys updated))
            (λ h. sym kept ∙ keys-get updated j h))
      ∙ ap (λ t. settled t (Dict.get jobs j)) (get-fill_all factory domains j)
