-- ===== src/Library.antt =====
-- `DomainWatcher` of interfaces/library/api.py: the set of watched domains, in the repository and
-- in the scheduler, and its life cycle. `A` stands for the state of the scheduler, `J` for its job
-- callables.
pub mod Requests
pub mod Watching
pub mod Synced
pub mod OverAps
pub mod Started
pub mod CheckNow
use domain_watcher.Application.Registry.{Registry}
use domain_watcher.Dict.{Dict, contains}
use domain_watcher.Monitoring.Repository.{MonitoredDomainRepository}
use domain_watcher.Monitoring.{
  ChannelId, CheckSchedule, LastCheck, MonitoredDomain, make_channel_id, make_schedule,
  check_domain, no_items,
}
use domain_watcher.Prelude.{
  ◌≡◌, Bool, true, false, not, Option, none, some, List, [], ◌∷◌, if◌then◌else◌, ◌==◌, list_eq,
  nat_eq,
}
use domain_watcher.Shared.DomainName.{DomainName}
use domain_watcher.Shared.Duration.{Duration}
use domain_watcher.Shared.Errors.{Error, Result, ok, raise}
use domain_watcher.Shared.Exec.{Exec, settle, pure, throw, ◌>>=◌, ◌>>◌, continue}
use domain_watcher.Shared.Text.{Text}
use domain_watcher.Library.Requests.{WatchRequest, DomainWatcher, prepare, last_of}

-- `SchedulerService`, as far as the façade calls it, with its laws. `start` is handed what the
-- repository lists, from which a scheduler may take its first jobs.
pub record SchedulerService (J A : Type 0) : Type 0 where
  pub add_or_update_job : DomainName → Text → J → A → Result (Unit {0}) × A
  pub remove_job : DomainName → A → A
  pub start : List MonitoredDomain → A → Result (Unit {0}) × A
  pub stop : A → Result (Unit {0}) × A
  -- the cron text of the job of a domain
  pub cron_of : A → DomainName → Option Text
  pub added :
      (d : DomainName) (cron : Text) (job : J) (a : A) (n : DomainName)
      → (add_or_update_job d cron job a).0 ≡ ok tt
      → cron_of (add_or_update_job d cron job a).1 n
        ≡ (if d.value == n.value then some cron else cron_of a n)
  pub refused :
      (d : DomainName) (cron : Text) (job : J) (a : A) (e : Error) (n : DomainName)
      → (add_or_update_job d cron job a).0 ≡ raise e
      → cron_of (add_or_update_job d cron job a).1 n ≡ cron_of a n
  pub removed :
      (d : DomainName) (a : A) (n : DomainName)
      → cron_of (remove_job d a) n ≡ (if d.value == n.value then none else cron_of a n)

-- What the façade holds and changes.
pub record WatcherState (R A : Type 0) : Type 0 where
  pub repo : R
  pub scheduler : A
  pub started : Bool

-- A coroutine of the façade.
abbrev pub Run : Type 0 → Type 0 → Type 0
Run R A = Exec (WatcherState R A) (Unit {0})

abbrev pub mark_started : {R A : Type 0} → Run R A
mark_started s = (ok tt, record s { started = true })

module _ {R : Type 0} (repo : MonitoredDomainRepository R) where
  -- `repo.add(new)` or `repo.update(new)`
  unfoldable pub upsert : Option MonitoredDomain → MonitoredDomain → R → Result (Unit {0}) × R
  upsert none new r = repo.add new r
  upsert (some existing) new r = (ok tt, repo.update new r)

  module _ {A : Type 0} where
    unfoldable pub save : Option MonitoredDomain → MonitoredDomain → Run R A
    unfolding upsert
    save existing new s = let (r, t) = upsert existing new s.repo in (r, record s { repo = t })

    -- the body of the loop of `start` for a domain that is there: `merged` keeps the `last_check`
    unfoldable pub merge : MonitoredDomain → MonitoredDomain → Run R A
    unfolding save
    merge existing d =
        settle (check_domain (record d { last_check = existing.last_check }))
          (λ merged. save (some existing) merged) throw

    unfoldable pub upsert_initial : Option MonitoredDomain → MonitoredDomain → Run R A
    unfolding merge
    upsert_initial none d = save none d
    upsert_initial (some existing) d = merge existing d

    -- the body of the loop of `start`
    unfoldable pub seed_one : MonitoredDomain → Run R A
    unfolding upsert_initial
    seed_one d s = upsert_initial (repo.get s.repo d.name) d s

    unfoldable pub seed : List MonitoredDomain → Run R A
    unfolding seed_one
    seed [] = pure tt
    seed (d ∷ ds) = seed_one d >> seed ds

  module _ {J A : Type 0} (scheduler : SchedulerService J A) where
    unfoldable pub remove_watching : DomainName → WatcherState R A → WatcherState R A
    remove_watching domain s = record s {
      scheduler = scheduler.remove_job domain s.scheduler;
      repo = repo.remove domain s.repo;
    }

    unfoldable pub start_scheduler : Run R A
    start_scheduler s =
        let (r, a) = scheduler.start (repo.list_all s.repo) s.scheduler in
        (r, record s { scheduler = a })

    module _ {T : Type 0} (watcher : DomainWatcher T J) where
      unfoldable pub schedule_job : MonitoredDomain → Run R A
      schedule_job d s =
          let (r, a) =
            scheduler.add_or_update_job d.name d.schedule.cron (watcher.make_job d.name)
              s.scheduler in
          (r, record s { scheduler = a })

      unfoldable pub ensure_watching : DomainName → WatchRequest → Run R A
      unfolding prepare save schedule_job
      ensure_watching domain request s =
          settle (prepare watcher repo domain request s.repo)
            (λ new. save (repo.get s.repo domain) new >> schedule_job new) throw s

      -- `start`, without the hooks, whose exceptions are dropped
      unfoldable pub start : Run R A
      unfolding seed start_scheduler
      start s =
          if s.started
          then (ok tt, s)
          else (seed watcher.initial_domains >> (start_scheduler >> mark_started)) s

-- `stop`, without the hooks: the `finally` resets the flag
unfoldable pub stop : {R J A : Type 0} → SchedulerService J A → Run R A
stop scheduler s =
    if s.started
    then (let (r, a) = scheduler.stop s.scheduler in
        (r, record s { scheduler = a; started = false }))
    else (ok tt, s)
