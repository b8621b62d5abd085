-- ===== src/Tests/Alerted.antt =====
-- The job of a domain that expires within a second, twice.
use domain_watcher.Application.Dispatch.Effects.{dispatched}
use domain_watcher.Application.World.{World}
use domain_watcher.Library.CheckNow.Once.{run_jobs-once, run_jobs-recorded}
use domain_watcher.Library.CheckNow.{CheckServices, run_job, run_jobs}
use domain_watcher.Monitoring.Repository.{MemoryRepo, memory_repository, memory_get, memory_update}
use domain_watcher.Notification.Idempotency.{
  Key, key, MemoryStore, memory_idempotency, memory_already_fired, memory_record,
}
use domain_watcher.Notification.Policy.{take, alerts_for}
use domain_watcher.Notification.{make_alert, hex_re, is_hex}
use domain_watcher.Monitoring.{with_check_result, check_domain, is_descending}
use domain_watcher.Dict
use domain_watcher.Application.CheckDomain.{execute}
use domain_watcher.Application.Dispatch.{plan, run, step_at, step, begin, send_once}
use domain_watcher.Application.Events.{make_event}
use domain_watcher.Prelude.{ℕ, ◌-◌, ◌<◌, ◌≡◌, refl, ◌||◌, List, [], ◌∷◌, ltb, arith, list_beq}
use domain_watcher.Shared.DomainName.{DomainName}
use domain_watcher.Shared.Errors.{ok}
use domain_watcher.Shared.Text.{Text}
use domain_watcher.Shared.Time.{Instant, second}
use domain_watcher.Tests.Data.{
  floats, retry_policy, site, watched, environment, expiry, zeros, policy, day, mail_id, mail,
}

abbrev digest : Instant → Text
digest i = zeros 64

abbrev services : CheckServices floats environment memory_repository memory_idempotency digest
services = record {
  checkers = (b'w' ∷ [], b'w' ∷ []) ∷ [];
  notifiers = (b'n' ∷ [], b'n' ∷ []) ∷ [];
  retry_policy = retry_policy;
  notification_policy = policy;
  resolver = λ domain. ok (mail ∷ []);
}

abbrev world : World ℕ (MemoryRepo × MemoryStore)
world = record { env = expiry - second; store = ((site.value, watched) ∷ [], []); published = [] }

abbrev alerted : Key
alerted = key site day (take 16 (zeros 64)) mail_id

abbrev steps : List ℕ
steps = 0 ∷ 1 ∷ 0 ∷ 1 ∷ []

abbrev job : World ℕ (MemoryRepo × MemoryStore) → World ℕ (MemoryRepo × MemoryStore)
job = run_job floats environment memory_repository memory_idempotency digest services steps site

sends : dispatched alerted (job world).published ≡ 1
unfolding dispatched run_job memory_repository memory_get memory_update Dict.get Dict.insert
    list_beq execute with_check_result check_domain plan run memory_idempotency memory_already_fired
    memory_record zeros make_alert hex_re is_hex is_descending alerts_for make_event key step_at
    step begin send_once
sends = refl

abbrev later : List (List ℕ × DomainName)
later = (steps, site) ∷ (steps, site) ∷ []

grown : dispatched alerted world.published < dispatched alerted (job world).published
unfolding dispatched
grown = rw sends (omega arith)

run_jobs-once_example :
    dispatched alerted
      (run_jobs floats environment memory_repository memory_idempotency digest services
        ((steps, site) ∷ later)
        world).published
    ≡ dispatched alerted (job world).published
run_jobs-once_example =
    run_jobs-once floats environment memory_repository memory_idempotency digest services alerted
      steps site later world (omega arith) grown

run_jobs-recorded_example :
    let v =
      run_jobs floats environment memory_repository memory_idempotency digest services later
        world in
    memory_idempotency.already_fired v.store.1 alerted ≡ (
      memory_idempotency.already_fired world.store.1 alerted
      || ltb (dispatched alerted world.published) (dispatched alerted v.published))
run_jobs-recorded_example =
    run_jobs-recorded floats environment memory_repository memory_idempotency digest services
      alerted later world (omega arith)
