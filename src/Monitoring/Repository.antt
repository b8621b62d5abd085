-- ===== src/Monitoring/Repository.antt =====
-- `MonitoredDomainRepository` of core/monitoring/ports.py as an interface with its laws, and its
-- implementation `MemoryMonitoredDomainRepo` of infrastructure/persistence/memory/monitored.py.
use domain_watcher.Dict
use domain_watcher.Dict.{Dict, values, get-insert, get-remove}
use domain_watcher.Monitoring.{MonitoredDomain, is_due}
use domain_watcher.Prelude.{
  ◌≡◌, refl, Option, none, some, List, filter, if◌then◌else◌, ◌==◌, list_eq, nat_eq, is_some,
}
use domain_watcher.Shared.DomainName.{DomainName}
use domain_watcher.Shared.Errors.{Result, ok, raise, value_error}
use domain_watcher.Shared.Text.{Text}
use domain_watcher.Shared.Time.{Instant}

pub record MonitoredDomainRepository (R : Type 0) : Type 0 where
  pub get : R → DomainName → Option MonitoredDomain
  pub add : MonitoredDomain → R → Result (Unit {0}) × R
  pub update : MonitoredDomain → R → R
  pub remove : DomainName → R → R
  pub list_all : R → List MonitoredDomain
  pub due_for_check : R → Instant → List MonitoredDomain
  pub get-update :
      (d : MonitoredDomain) (r : R) (n : DomainName)
      → get (update d r) n ≡ (if d.name.value == n.value then some d else get r n)
  pub get-remove :
      (m : DomainName) (r : R) (n : DomainName)
      → get (remove m r) n ≡ (if m.value == n.value then none else get r n)
  -- `add` raises for a name that is there, and else writes as `update` does
  pub add_lem :
      (d : MonitoredDomain) (r : R)
      → add d r ≡ (if is_some (get r d.name) then (raise value_error, r) else (ok tt, update d r))

-- `MemoryMonitoredDomainRepo._store`; the lock makes each method one step
abbrev pub MemoryRepo : Type 0
MemoryRepo = Dict Text MonitoredDomain

unfoldable pub memory_get : MemoryRepo → DomainName → Option MonitoredDomain
memory_get store name = Dict.get store name.value

unfoldable pub memory_update : MonitoredDomain → MemoryRepo → MemoryRepo
memory_update d store = Dict.insert store d.name.value d

unfoldable pub memory_add : MonitoredDomain → MemoryRepo → Result (Unit {0}) × MemoryRepo
memory_add d store =
    if is_some (Dict.get store d.name.value)
    then (raise value_error, store)
    else (ok tt, Dict.insert store d.name.value d)

unfoldable pub memory_remove : DomainName → MemoryRepo → MemoryRepo
memory_remove name store = Dict.remove store name.value

unfoldable pub memory_list_all : MemoryRepo → List MonitoredDomain
memory_list_all store = values store

unfoldable pub memory_due_for_check : MemoryRepo → Instant → List MonitoredDomain
memory_due_for_check store now = filter (λ d. is_due d now) (values store)

-- After `update` the lookup of the name gives the domain, and every other lookup is as before.
pub memory_get-update :
    (d : MonitoredDomain) (r : MemoryRepo) (n : DomainName)
    → memory_get (memory_update d r) n
      ≡ (if d.name.value == n.value then some d else memory_get r n)
unfolding memory_get memory_update
memory_get-update d r n = get-insert r d.name.value n.value d

pub memory_get-remove :
    (m : DomainName) (r : MemoryRepo) (n : DomainName)
    → memory_get (memory_remove m r) n ≡ (if m.value == n.value then none else memory_get r n)
unfolding memory_get memory_remove
memory_get-remove m r n = get-remove r m.value n.value

pub memory_add_lem :
    (d : MonitoredDomain) (r : MemoryRepo)
    → memory_add d r ≡ (
        if is_some (memory_get r d.name)
        then (raise value_error, r)
        else (ok tt, memory_update d r))
unfolding memory_add memory_get memory_update
memory_add_lem d r = refl

-- The in-memory repository keeps the laws that the use cases rely on.
unfoldable pub memory_repository : MonitoredDomainRepository MemoryRepo
memory_repository = record {
  get = memory_get;
  add = memory_add;
  update = memory_update;
  remove = memory_remove;
  list_all = memory_list_all;
  due_for_check = memory_due_for_check;
  get-update = memory_get-update;
  get-remove = memory_get-remove;
  add_lem = memory_add_lem;
}
