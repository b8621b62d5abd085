-- ===== src/Application/Aps.antt =====
-- `ApsScheduler` of infrastructure/scheduling/apscheduler.py, over the scheduler of the library
-- apscheduler, whose state is `P`. `J` stands for the job callables, whose `==` is `is`.
pub mod InStep
pub mod Target
use domain_watcher.Application.Scheduling
use domain_watcher.Application.Scheduling.{Jobs, jid, fill}
use domain_watcher.Dict
use domain_watcher.Dict.{keys, contains}
use domain_watcher.Monitoring.{MonitoredDomain}
use domain_watcher.Prelude.{
  ℕ, ◌≡◌, Bool, true, false, not, ◌||◌, ◌&&◌, Option, none, some, List, [], ◌∷◌, ◌++◌, ◌==◌, nat_eq,
  list_eq, Eq, ltb, if◌then◌else◌,
}
use domain_watcher.Shared.Decimal.{decimal}
use domain_watcher.Shared.DomainName.{DomainName}
use domain_watcher.Shared.Errors.{Result, ok, raise, value_error}
use domain_watcher.Shared.Exec.{Exec, pure, throw, lift, continue, ◌>>=◌, ◌>>◌}
use domain_watcher.Shared.Text.{Text, lit}

-- What the adapter calls of apscheduler, with the documented behaviour of its job store: a job is
-- added unless its id is taken, and a job that is removed is gone.
pub record AsyncIoScheduler (J P : Type 0) : Type 1 where
  pub Trigger : Type 0
  -- `CronTrigger.from_crontab(cron, timezone=…)` and `IntervalTrigger(seconds=…, timezone=…)`
  pub from_crontab : Text → Result Trigger
  pub interval : ℕ → Trigger
  pub has_job : Text → P → Bool
  pub remove_job : Text → P → P
  pub add_job : Text → Trigger → J → P → Result (Unit {0}) × P
  pub start : P → P
  -- `shutdown(wait=True)`, which empties the job store
  pub shutdown : P → P
  pub add_job-ok :
      (id : Text) (trigger : Trigger) (job : J) (p : P)
      → has_job id p ≡ false
      → (add_job id trigger job p).0 ≡ ok tt
  pub has_job-add_job :
      (id : Text) (trigger : Trigger) (job : J) (p : P) (k : Text)
      → has_job id p ≡ false
      → has_job k (add_job id trigger job p).1 ≡ (id == k || has_job k p)
  pub has_job-remove_job :
      (id : Text) (p : P) (k : Text) → has_job k (remove_job id p) ≡ (not (id == k) && has_job k p)
  pub has_job-start : (p : P) (k : Text) → has_job k (start p) ≡ has_job k p
  pub has_job-shutdown : (p : P) (k : Text) → has_job k (shutdown p) ≡ false

-- `_REVALIDATION_JOB_ID`
unfoldable pub revalidation_job_id : Text
unfolding lit
revalidation_job_id = lit "revalidate-learned-rules"

pub record ApsScheduler (J P : Type 0) : Type 0 where
  pub scheduler : P
  pub jobs : Jobs J
  pub started : Bool

abbrev pub Run : Type 0 → Type 0 → Type 0
Run J P = Exec (ApsScheduler J P) (Unit {0})

module _ {J P : Type 0} ⦃e : Eq J⦄ (aps : AsyncIoScheduler J P) where
  -- `if get_job(id) is not None: remove_job(id)`
  abbrev pub remove_if_there : Text → P → P
  remove_if_there id p = if aps.has_job id p then aps.remove_job id p else p

  -- `self._scheduler.add_job(…, id=id)`
  abbrev pub hand_over : Text → aps.Trigger → J → Run J P
  hand_over id trigger job s =
      let (r, p) = aps.add_job id trigger job s.scheduler in (r, record s { scheduler = p })

  -- `_add_aps_job`; its `except` raises `ValueError` again, with another message
  unfoldable pub add_aps_job : Bool → Text → Text → J → Run J P
  add_aps_job replace id cron job = do
    trigger ← lift (aps.from_crontab cron)
    λ s.
        hand_over id trigger job
          (record s { scheduler = if replace then remove_if_there id s.scheduler else s.scheduler })

  -- `self._jobs[id] = (cron, job)`
  abbrev pub note : Text → Text → J → Run J P
  note id cron job s = (ok tt, record s { jobs = Dict.insert s.jobs id (cron, job) })

  unfoldable pub add_job : DomainName → Text → J → Run J P
  unfolding add_aps_job
  add_job domain cron job s =
      if contains s.jobs (jid domain)
      then (raise value_error, s)
      else (add_aps_job false (jid domain) cron job >> note (jid domain) cron job) s

  -- `existing is not None and existing[0] == cron and existing[1] is callable_`
  unfoldable pub is_desired : Option (Text × J) → Text → J → Bool
  is_desired none cron job = false
  is_desired (some (old, older)) cron job = old == cron && older == job

  unfoldable pub add_or_update_job : DomainName → Text → J → Run J P
  unfolding add_aps_job is_desired
  add_or_update_job domain cron job s =
      if is_desired (Dict.get s.jobs (jid domain)) cron job
      then (ok tt, s)
      else (add_aps_job true (jid domain) cron job >> note (jid domain) cron job) s

  -- the removal of a job by its id, from the scheduler and from `_jobs`
  abbrev pub discard : Text → ApsScheduler J P → ApsScheduler J P
  discard id s = record s {
    scheduler = remove_if_there id s.scheduler;
    jobs = Dict.remove s.jobs id;
  }

  unfoldable pub remove_job : DomainName → ApsScheduler J P → ApsScheduler J P
  remove_job domain s = if contains s.jobs (jid domain) then discard (jid domain) s else s

  -- the body of the loop under `# Add or update`
  unfoldable pub settle_job : Option (Text × J) → Text → Text → J → Run J P
  unfolding add_aps_job
  settle_job none id cron job = add_aps_job false id cron job >> note id cron job
  settle_job (some (old, older)) id cron job =
      if not (old == cron)
      then add_aps_job true id cron job >> note id cron job
      else if not (older == job)
      then add_aps_job true id cron job >> note id cron job
      else pure tt

  unfoldable pub settle_all : Jobs J → Run J P
  unfolding settle_job
  settle_all [] = pure tt
  settle_all ((id, (cron, job)) ∷ target) =
      (λ s. settle_job (Dict.get s.jobs id) id cron job s) >> settle_all target

  -- the loop under `# Remove jobs that disappeared`
  unfoldable pub drop_missing : List Text → Jobs J → ApsScheduler J P → ApsScheduler J P
  unfolding revalidation_job_id
  drop_missing [] target s = s
  drop_missing (id ∷ ids) target s =
      drop_missing ids target
        (if contains target id || id == revalidation_job_id then s else discard id s)

  unfoldable pub reconcile : (MonitoredDomain → J) → List MonitoredDomain → Run J P
  unfolding settle_all drop_missing
  reconcile factory domains =
      let target = fill factory domains [] in
      settle_all target >> (λ s. (ok tt, drop_missing (keys s.jobs) target s))

  -- `start`, with what `bootstrap_repo.list_all()` gives where there are a repository and a factory
  unfoldable pub bootstrap : Option (MonitoredDomain → J) → List MonitoredDomain → Run J P
  unfolding reconcile
  bootstrap none domains = pure tt
  bootstrap (some factory) domains = reconcile factory domains

  -- `if self._started: return`
  abbrev pub unless_started : Bool → Run J P → Run J P
  unless_started true run s = (ok tt, s)
  unless_started false run s = run s

  abbrev pub mark_started : Run J P
  mark_started s = (ok tt, record s { scheduler = aps.start s.scheduler; started = true })

  unfoldable pub start : Option (MonitoredDomain → J) → List MonitoredDomain → Run J P
  unfolding bootstrap
  start factory domains s = unless_started s.started (bootstrap factory domains >> mark_started) s

  abbrev pub shut_down : Bool → ApsScheduler J P → ApsScheduler J P
  shut_down true s = record { scheduler = aps.shutdown s.scheduler; jobs = []; started = false }
  shut_down false s = s

  unfoldable pub stop : ApsScheduler J P → ApsScheduler J P
  stop s = shut_down s.started s

  -- the text of the entry of the revalidation job
  abbrev pub interval_text : ℕ → Text
  interval_text seconds = lit "interval:" ++ decimal seconds (lit "s")

  unfoldable pub add_revalidation_job : ℕ → J → Run J P
  unfolding revalidation_job_id
  add_revalidation_job seconds job s =
      if ltb 0 seconds
      then (hand_over revalidation_job_id (aps.interval seconds) job
            >> note revalidation_job_id (interval_text seconds) job)
          (record s { scheduler = remove_if_there revalidation_job_id s.scheduler })
      else (raise value_error, s)

  unfoldable pub remove_revalidation_job : ApsScheduler J P → ApsScheduler J P
  unfolding revalidation_job_id
  remove_revalidation_job s = discard revalidation_job_id s
