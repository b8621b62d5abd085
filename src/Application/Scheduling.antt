-- ===== src/Application/Scheduling.antt =====
-- `MemoryScheduler` of application/scheduling.py. `J` stands for the job callables.
pub mod Reconciled
use domain_watcher.Dict
use domain_watcher.Dict.{Dict, keys, contains, IsDict, insert-IsDict, get-insert, get-remove}
use domain_watcher.Monitoring.{MonitoredDomain}
use domain_watcher.Prelude.{
  ℕ, ◌≡◌, refl, Bool, true, false, not, Option, none, some, List, [], ◌∷◌, ◌++◌, ◌==◌, nat_eq,
  list_eq, if◌then◌else◌, arith, eq_iff, eq_refl, is_some, ◌⊎◌, inl, inr, ◌∙◌, sym,
}
use domain_watcher.Shared.DomainName.{DomainName}
use domain_watcher.Shared.Errors.{Result, ok, raise, value_error, key_error}
use domain_watcher.Shared.Text.{Text, lit}

-- `_jid`
unfoldable pub jid : DomainName → Text
jid domain = lit "check:" ++ domain.value

-- `jobs`: the cron text and the callable of each job id
abbrev pub Jobs : Type 0 → Type 0
Jobs J = Dict Text (Text × J)

module _ {J : Type 0} where
  unfoldable pub add_job : DomainName → Text → J → Jobs J → Result (Unit {0}) × Jobs J
  add_job domain cron job jobs =
      if contains jobs (jid domain)
      then (raise value_error, jobs)
      else (ok tt, Dict.insert jobs (jid domain) (cron, job))

  unfoldable pub add_or_update_job : DomainName → Text → J → Jobs J → Jobs J
  add_or_update_job domain cron job jobs = Dict.insert jobs (jid domain) (cron, job)

  unfoldable pub remove_job : DomainName → Jobs J → Jobs J
  remove_job domain jobs = Dict.remove jobs (jid domain)

  unfoldable pub list_jobs : Jobs J → List Text
  list_jobs jobs = keys jobs

  -- the job that `trigger` calls
  unfoldable pub trigger : DomainName → Jobs J → Result J
  trigger domain jobs = elim (Dict.get jobs (jid domain)) [
    | none ↦ raise key_error
    | some (cron, job) ↦ ok job
  ]

  -- the loop that fills `target`
  unfoldable pub fill : (MonitoredDomain → J) → List MonitoredDomain → Jobs J → Jobs J
  fill factory [] target = target
  fill factory (d ∷ ds) target =
      fill factory ds (Dict.insert target (jid d.name) (d.schedule.cron, factory d))

  -- `existing is None or existing[0] != cron`
  unfoldable pub is_stale : Option (Text × J) → Text → Bool
  is_stale none cron = true
  is_stale (some (old, job)) cron = not (old == cron)

  -- the loop under `# Add or update`
  unfoldable pub add_or_update : Jobs J → Jobs J → Jobs J
  unfolding is_stale
  add_or_update [] jobs = jobs
  add_or_update ((id, (cron, job)) ∷ target) jobs =
      add_or_update target
        (if is_stale (Dict.get jobs id) cron then Dict.insert jobs id (cron, job) else jobs)

  -- the loop over `list(self.jobs)`
  unfoldable pub drop_missing : List Text → Jobs J → Jobs J → Jobs J
  drop_missing [] target jobs = jobs
  drop_missing (id ∷ ids) target jobs =
      drop_missing ids target (if contains target id then jobs else Dict.remove jobs id)

  unfoldable pub reconcile : (MonitoredDomain → J) → List MonitoredDomain → Jobs J → Jobs J
  unfolding fill add_or_update drop_missing
  reconcile factory domains jobs =
      let target = fill factory domains [] in
      let updated = add_or_update target jobs in drop_missing (keys updated) target updated

-- `MemoryScheduler`: its jobs, which the operations above change, and `_started`
pub record MemoryScheduler (J : Type 0) : Type 0 where
  pub jobs : Jobs J
  pub started : Bool

module _ {J : Type 0} where
  unfoldable pub start : MemoryScheduler J → MemoryScheduler J
  start s = record s { started = true }

  unfoldable pub stop : MemoryScheduler J → MemoryScheduler J
  stop s = record s { started = false }
