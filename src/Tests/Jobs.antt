-- ===== src/Tests/Jobs.antt =====
-- The adapter of apscheduler, over a scheduler that keeps the trigger of each id.
use domain_watcher.Application.Aps.InStep.{
  Call, adding, updating, removing, starting, stopping, revalidating, calls, calls-has_job,
}
use domain_watcher.Application.Aps.Target.{Leaves, Targeted, reconciled, reconcile-Leaves}
use domain_watcher.Application.Aps.{AsyncIoScheduler, ApsScheduler, revalidation_job_id, reconcile}
use domain_watcher.Application.Scheduling.Reconciled.{wanted}
use domain_watcher.Application.Scheduling.{fill}
use domain_watcher.Dict
use domain_watcher.Dict.{Dict, contains, contains-insert, get-remove, get-nil}
use domain_watcher.Library.OverAps.{aps_service}
use domain_watcher.Library.Started.{Started, start_scheduler-Started}
use domain_watcher.Library.{WatcherState, start_scheduler}
use domain_watcher.Monitoring.Repository.{MemoryRepo, memory_repository}
use domain_watcher.Monitoring.{MonitoredDomain}
use domain_watcher.Prelude.{
  ℕ, ◌≡◌, refl, Bool, true, false, not, ◌&&◌, some, List, [], ◌∷◌, ◌==◌, nat_eq, list_eq, is_some,
  ap, arith,
}
use domain_watcher.Shared.Errors.{Result, ok, raise, value_error}
use domain_watcher.Shared.Text.{Text}
use domain_watcher.Tests.Data.{site, watched}

abbrev Store : Type 0
Store = Dict Text Text

abbrev from_crontab : Text → Result Text
from_crontab [] = raise value_error
from_crontab (c ∷ cron) = ok (c ∷ cron)

abbrev add_unless : Bool → Text → Text → Store → Result (Unit {0}) × Store
add_unless true id trigger p = (raise value_error, p)
add_unless false id trigger p = (ok tt, Dict.insert p id trigger)

removed :
    (p : Store) (id k : Text) → contains (Dict.remove p id) k ≡ (not (id == k) && contains p k)
removed p id k = ground (arith, get-remove p id k)

abbrev aps : AsyncIoScheduler ℕ Store
aps = record {
  Trigger = Text;
  from_crontab = from_crontab;
  interval = λ n. b'i' ∷ [];
  has_job = λ id p. contains p id;
  remove_job = λ id p. Dict.remove p id;
  add_job = λ id trigger job p. add_unless (contains p id) id trigger p;
  start = λ p. p;
  shutdown = λ p. [];
  add_job-ok = λ id trigger job p new. rw new refl;
  has_job-add_job = λ id trigger job p k new. rw new (contains-insert p id k trigger);
  has_job-remove_job = λ id p k. removed p id k;
  has_job-start = λ p k. refl;
  has_job-shutdown = λ p k. ap is_some (get-nil {V = Text} k);
}

abbrev empty : ApsScheduler ℕ Store
empty = record { scheduler = []; jobs = []; started = false }

empty-InStep : (k : Text) → contains empty.jobs k ≡ aps.has_job k empty.scheduler
unfolding Dict.get
empty-InStep k = refl

abbrev factory : MonitoredDomain → ℕ
factory d = 7

abbrev call_list : List (Call aps)
call_list =
    starting (some factory) (watched ∷ [])
    ∷ adding site (b'x' ∷ []) 3
    ∷ updating site [] 4
    ∷ revalidating 60 5
    ∷ removing site
    ∷ stopping
    ∷ []

calls-has_job_example :
    contains (calls aps call_list empty).jobs revalidation_job_id
    ≡ aps.has_job revalidation_job_id (calls aps call_list empty).scheduler
calls-has_job_example = calls-has_job aps call_list empty revalidation_job_id empty-InStep

reconcile-Leaves_example :
    Leaves aps
      (λ k. reconciled aps k (wanted factory (watched ∷ []) k) (Dict.get empty.jobs k))
      (Targeted aps (fill factory (watched ∷ []) []))
      (reconcile aps factory (watched ∷ []) empty).0
      (reconcile aps factory (watched ∷ []) empty).1
reconcile-Leaves_example = reconcile-Leaves aps factory (watched ∷ []) empty empty-InStep

abbrev stored : WatcherState MemoryRepo (ApsScheduler ℕ Store)
stored = record { repo = (site.value, watched) ∷ []; scheduler = empty; started = false }

start_scheduler-Started_example :
    Started aps factory stored
      (start_scheduler memory_repository (aps_service aps factory) stored).0
      (start_scheduler memory_repository (aps_service aps factory) stored).1
unfolding Dict.get
start_scheduler-Started_example =
    start_scheduler-Started aps factory stored (refl, tt) (refl, tt) empty-InStep refl
