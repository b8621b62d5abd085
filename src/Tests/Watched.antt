-- ===== src/Tests/Watched.antt =====
-- The façade over the in-memory repository and scheduler.
use domain_watcher.Application.Scheduling.{MemoryScheduler}
use domain_watcher.Dict
use domain_watcher.Library.Requests.{WatchRequest, DomainWatcher, named, last_of}
use domain_watcher.Library.Synced.{
  Call, ensuring, removing, Synced, calls, calls-cron_of, cron_in, memory_scheduler, seed-last_of,
}
use domain_watcher.Library.Watching.{Ends, ensure_watching-Ends}
use domain_watcher.Library.{SchedulerService, WatcherState, ensure_watching, seed}
use domain_watcher.Monitoring.Repository.{MemoryRepo, memory_repository, memory_get, memory_add}
use domain_watcher.Prelude.{ℕ, ◌≡◌, refl, false, none, List, [], ◌∷◌, list_beq, nat_eq, list_eq}
use domain_watcher.Shared.DomainName.{DomainName}
use domain_watcher.Shared.Errors.{ok}
use domain_watcher.Shared.Text.{Text, strip, words}
use domain_watcher.Monitoring.{make_channel_id, make_schedule, check_domain}
use domain_watcher.Tests.Data.{day, site, watched}

abbrev cron : Text
cron = b'*' ∷ b' ' ∷ b'*' ∷ b' ' ∷ b'*' ∷ b' ' ∷ b'*' ∷ b' ' ∷ b'*' ∷ []

abbrev watcher : DomainWatcher ℕ ℕ
watcher = record {
  checker_registry = (b'w' ∷ [], 0) ∷ [];
  default_thresholds = day ∷ [];
  default_schedule = cron;
  initial_domains = watched ∷ [];
  make_job = λ domain. 0;
}

abbrev request : WatchRequest
request = record {
  checker_id = b'w' ∷ [];
  schedule = none;
  channels = named (b'm' ∷ []) ∷ [];
  thresholds = none;
  metadata = none;
}

abbrev scheduler : SchedulerService ℕ (MemoryScheduler ℕ)
scheduler = memory_scheduler

abbrev empty : WatcherState MemoryRepo (MemoryScheduler ℕ)
empty = record { repo = []; scheduler = record { jobs = []; started = false }; started = false }

ensure_watching-Ends_example :
    Ends memory_repository watcher scheduler site request empty
      (ensure_watching memory_repository scheduler watcher site request empty).0
      (ensure_watching memory_repository scheduler watcher site request empty).1
ensure_watching-Ends_example =
    ensure_watching-Ends memory_repository watcher scheduler site request empty

watched_now : (ensure_watching memory_repository scheduler watcher site request empty).0 ≡ ok tt
unfolding memory_repository memory_scheduler ensure_watching Dict.get list_beq make_channel_id strip
    make_schedule words check_domain memory_get memory_add
watched_now = refl

always_ok :
    (d : DomainName) (text : Text) (job : ℕ) (jobs : MemoryScheduler ℕ)
    → (scheduler.add_or_update_job d text job jobs).0 ≡ ok tt
unfolding memory_scheduler
always_ok d text job jobs = refl

empty-Synced : Synced memory_repository scheduler watcher empty
unfolding memory_scheduler memory_repository memory_get Dict.get
empty-Synced n = refl

abbrev call_list : List Call
call_list = ensuring site request ∷ ensuring site request ∷ removing site ∷ []

calls-cron_of_example :
    scheduler.cron_of (calls memory_repository scheduler watcher call_list empty).scheduler site
    ≡ cron_in (
        memory_repository.get (calls memory_repository scheduler watcher call_list empty).repo site)
calls-cron_of_example =
    calls-cron_of memory_repository scheduler watcher always_ok call_list empty site empty-Synced

seed-last_of_example :
    last_of
      (memory_repository.get (seed memory_repository (watched ∷ watched ∷ []) empty).1.repo site)
    ≡ last_of (memory_repository.get empty.repo site)
seed-last_of_example =
    seed-last_of memory_repository (watched ∷ watched ∷ []) empty site (refl, (refl, tt))
