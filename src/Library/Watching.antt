-- ===== src/Library/Watching.antt =====
-- What `ensure_watching` and `remove_watching` do to the repository and the scheduler.
use domain_watcher.Dict.{contains}
use domain_watcher.Library.Requests.{
  WatchRequest, DomainWatcher, prepare, requested, channel_ids, or_default, last_of,
}
use domain_watcher.Library.{
  SchedulerService, WatcherState, upsert, save, schedule_job, ensure_watching,
}
use domain_watcher.Monitoring.Repository.{MonitoredDomainRepository}
use domain_watcher.Monitoring.{
  MonitoredDomain, ChannelId, make_schedule, check_domain, is_descending, no_items,
}
use domain_watcher.Prelude.{
  length, ◌≡◌, refl, true, false, not, Option, none, some, List, [], if◌then◌else◌, ◌==◌, list_eq,
  nat_eq, inl, inr, arith, ap,
}
use domain_watcher.Shared.DomainName.{DomainName}
use domain_watcher.Shared.Gives.{Gives, value, raise_if-Gives, bind-Gives, own-Gives, of-Gives}
use domain_watcher.Shared.Errors.{Error, Result, Result-cases, ok, raise, value_error, key_error}
use domain_watcher.Shared.Text.{Text, is_empty, strip, split}

make_schedule-Gives : (cron : Text) → Gives (λ s. s.cron ≡ cron) (make_schedule cron)
unfolding make_schedule
make_schedule-Gives cron =
    raise_if-Gives (is_empty (strip cron)) value_error _
      (λ _. raise_if-Gives (not (length (split cron) == 5)) value_error _ (λ _. value refl))

module _ {T J R : Type 0} (repo : MonitoredDomainRepository R) (watcher : DomainWatcher T J) where
  -- The domain that a request stands for.
  pub record Requested (domain : DomainName) (request : WatchRequest) (r : R)
      (new : MonitoredDomain) : Type 0 where
    pub registered : contains watcher.checker_registry request.checker_id ≡ true
    pub named : new.name ≡ domain
    pub checked_by : new.checker_id ≡ request.checker_id
    pub scheduled : new.schedule.cron ≡ or_default request.schedule watcher.default_schedule
    pub kept : new.last_check ≡ last_of (repo.get r domain)
    pub thresholds :
        new.notify_thresholds ≡ or_default request.thresholds watcher.default_thresholds
    pub channels : channel_ids request.channels ≡ ok new.channels
    pub metadata : new.metadata ≡ or_default request.metadata []
    pub channelled : no_items new.channels ≡ false
    pub descending : is_descending new.notify_thresholds ≡ true

  requested-Gives :
      (domain : DomainName) (request : WatchRequest) (r : R) (ids : List ChannelId)
      → contains watcher.checker_registry request.checker_id ≡ true
      → channel_ids request.channels ≡ ok ids
      → Gives
          (Requested domain request r)
          (requested watcher repo domain request ids (repo.get r domain))
  unfolding requested check_domain
  requested-Gives domain request r ids known built =
      let thresholds = or_default request.thresholds watcher.default_thresholds in
      bind-Gives (make_schedule (or_default request.schedule watcher.default_schedule)) _
        (make_schedule-Gives _)
        (λ schedule cron. raise_if-Gives (no_items thresholds) value_error _ (λ _.
          raise_if-Gives (not (is_descending thresholds)) value_error _ (λ falling.
            raise_if-Gives (no_items ids) value_error _ (λ some_ids.
              raise_if-Gives (is_empty request.checker_id) value_error _ (λ _. value (record {
                registered = known;
                named = refl;
                checked_by = refl;
                scheduled = cron;
                kept = refl;
                thresholds = refl;
                channels = built;
                metadata = refl;
                channelled = some_ids;
                descending = ground (arith, falling);
              }))))))

  prepare-Gives :
      (domain : DomainName) (request : WatchRequest) (r : R)
      → Gives (Requested domain request r) (prepare watcher repo domain request r)
  unfolding prepare
  prepare-Gives domain request r =
      raise_if-Gives (not (contains watcher.checker_registry request.checker_id)) key_error _
        (λ known.
          bind-Gives (channel_ids request.channels) _ (own-Gives (channel_ids request.channels))
            (λ ids built.
              raise_if-Gives (no_items ids) value_error _
                (λ _. requested-Gives domain request r ids (ground (arith, known)) built)))

  prepare-Requested :
      (domain : DomainName) (request : WatchRequest) (r : R) (new : MonitoredDomain)
      → prepare watcher repo domain request r ≡ ok new
      → Requested domain request r new
  prepare-Requested domain request r new e =
      of-Gives (prepare watcher repo domain request r) new (prepare-Gives domain request r) e

  -- `repo.add` of a name that is not there and `repo.update` write the same.
  upsert-get :
      (new : MonitoredDomain) (r : R) (o : Option MonitoredDomain)
      → repo.get r new.name ≡ o
      → upsert repo o new r ≡ (ok tt, repo.update new r)
  unfolding upsert
  upsert-get new r none e = rw (repo.add_lem new r, e) refl
  upsert-get new r (some old) e = refl

  module _ {A : Type 0} (scheduler : SchedulerService J A) where
    -- How a call of `ensure_watching` can end: the domain is stored and has its job, and nothing
    -- else has changed; a guard refused the request, and nothing has changed; or the scheduler
    -- refused the job, after the domain was stored.
    pub data Ends (domain : DomainName) (request : WatchRequest) (s : WatcherState R A)
        : Result (Unit {0}) → WatcherState R A → Type 0 where
      watching :
          {t : WatcherState R A} (new : MonitoredDomain)
          → Requested domain request s.repo new
          → ((n : DomainName)
              → repo.get t.repo n
                ≡ (if domain.value == n.value then some new else repo.get s.repo n))
          → ((n : DomainName)
              → scheduler.cron_of t.scheduler n ≡ (
                  if domain.value == n.value
                  then some new.schedule.cron
                  else scheduler.cron_of s.scheduler n))
          → Ends domain request s (ok tt) t
      declined :
          {e : Error}
          → prepare watcher repo domain request s.repo ≡ raise e
          → Ends domain request s (raise e) s
      unscheduled :
          {e : Error} {t : WatcherState R A} (new : MonitoredDomain)
          → Requested domain request s.repo new
          → (scheduler.add_or_update_job new.name new.schedule.cron
              (watcher.make_job new.name)
              s.scheduler).0
            ≡ raise e
          → ((n : DomainName)
              → repo.get t.repo n
                ≡ (if domain.value == n.value then some new else repo.get s.repo n))
          → ((n : DomainName) → scheduler.cron_of t.scheduler n ≡ scheduler.cron_of s.scheduler n)
          → Ends domain request s (raise e) t

    abbrev pub EndsIn :
        DomainName → WatchRequest → WatcherState R A → Result (Unit {0}) × WatcherState R A → Type 0
    EndsIn domain request s (r, t) = Ends domain request s r t

    stored :
        (domain n : DomainName) (request : WatchRequest) (r : R) (new : MonitoredDomain)
        → Requested domain request r new
        → repo.get (repo.update new r) n
          ≡ (if domain.value == n.value then some new else repo.get r n)
    stored domain n request r new q = rw (← q.named) (repo.get-update new r n)

    -- A call of `ensure_watching` ends in one of the three ways of `Ends`.
    pub ensure_watching-Ends :
        (domain : DomainName) (request : WatchRequest) (s : WatcherState R A)
        → EndsIn domain request s (ensure_watching repo scheduler watcher domain request s)
    unfolding ensure_watching save schedule_job
    ensure_watching-Ends domain request s =
        elim (Result-cases (prepare watcher repo domain request s.repo)) [
          | inl (new, e) ↦
              let q = prepare-Requested domain request s.repo new e in
              let job = watcher.make_job new.name in
              rw (e, upsert-get new s.repo (repo.get s.repo domain) (ap (repo.get s.repo) q.named))
                (elim (Result-cases
                  (scheduler.add_or_update_job new.name new.schedule.cron job s.scheduler).0) [
                    | inl (u, done) ↦ rw done (
                        watching new q (λ n. stored domain n request s.repo new q)
                          (λ n.
                            rw (← q.named)
                              (scheduler.added new.name new.schedule.cron job s.scheduler n done)))
                    | inr (x, denied) ↦ rw denied (
                        unscheduled new q denied (λ n. stored domain n request s.repo new q)
                          (λ n.
                            scheduler.refused new.name new.schedule.cron job s.scheduler x n
                              denied))
                  ])
          | inr (x, e) ↦ rw e (declined e)
        ]
