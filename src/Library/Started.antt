-- ===== src/Library/Started.antt =====
-- What `DomainWatcher.start` schedules, over `ApsScheduler` and the in-memory repository.
use domain_watcher.Application.Aps
use domain_watcher.Application.Aps.Target.{Leaves, Targeted, reconciled, reconcile-Leaves}
use domain_watcher.Application.Aps.{
  AsyncIoScheduler, ApsScheduler, revalidation_job_id, remove_if_there, add_aps_job, note,
  is_desired, discard, unless_started, mark_started, reconcile,
}
use domain_watcher.Application.Scheduling.Reconciled.{wanted, or_option, get-fill_all}
use domain_watcher.Application.Scheduling.{jid, fill}
use domain_watcher.Dict
use domain_watcher.Dict.{
  Dict, values, contains, IsDict, insert-IsDict, get-insert, get-remove, get-nil,
}
use domain_watcher.Library.OverAps.{aps_service}
use domain_watcher.Library.Synced.{cron_part, same_jid, cron_in}
use domain_watcher.Library.{WatcherState, start_scheduler}
use domain_watcher.Monitoring.Repository.{
  MemoryRepo, memory_repository, memory_get, memory_list_all,
}
use domain_watcher.Monitoring.{MonitoredDomain}
use domain_watcher.Prelude.{
  ◌≡◌, refl, Bool, true, false, Option, none, some, List, [], ◌∷◌, ◌==◌, nat_eq, list_eq, list_beq,
  Eq, Bool-cases, Option-cases, inl, inr, arith, eq_iff, ap, ◌∙◌, sym, All, any,
}
use domain_watcher.Shared.DomainName.{DomainName}
use domain_watcher.Shared.Errors.{Error, Result, ok, raise}
use domain_watcher.Shared.Exec.{continue, ◌>>◌}
use domain_watcher.Shared.Text.{Text, lit}

module _ {J P : Type 0} ⦃e : Eq J⦄ (aps : AsyncIoScheduler J P) where
  -- an entry of the repository is kept under its name
  abbrev pub Keyed : MemoryRepo → Type 0
  Keyed store = All (λ e. e.0 ≡ e.1.name.value) store

  cron_part-none : (o : Option (Text × J)) → cron_part o ≡ none → o ≡ none
  cron_part-none none h = refl
  cron_part-none (some x) h = absurd (ground arith)

  wanted-listed :
      (factory : MonitoredDomain → J) (store : MemoryRepo) (n : DomainName)
      → IsDict store
      → Keyed store
      → cron_part (wanted factory (values store) (jid n)) ≡ cron_in (Dict.get store n.value)
  unfolding wanted Dict.get
  wanted-listed factory [] n h keyed = refl
  wanted-listed factory ((k, d) ∷ store) n (new, h) (same, keyed) =
      let there = wanted-listed factory store n h keyed in
      rw (same_jid d.name n, ← same)
        (elim (Bool-cases (k == n.value)) [
          | inl hit ↦
              let gone =
                cron_part-none (wanted factory (values store) (jid n)) (
                  there
                  ∙ ap cron_in (ap (Dict.get store) (sym ((eq_iff k n.value).0 hit)) ∙ new)) in
              rw (hit, gone) refl
          | inr miss ↦ rw miss (or_none (wanted factory (values store) (jid n)) ∙ there)
        ])
    where
      or_none : (o : Option (Text × J)) → cron_part (or_option o none) ≡ cron_part o
      or_none none = refl
      or_none (some x) = refl

  wanted-any :
      (factory : MonitoredDomain → J) (ds : List MonitoredDomain) (k cron : Text) (job : J)
      → wanted factory ds k ≡ some (cron, job)
      → any (λ d. d.schedule.cron == cron) ds ≡ true
  unfolding wanted any
  wanted-any factory [] k cron job h = absurd (ground arith)
  wanted-any factory (d ∷ ds) k cron job h = ground (
    arith,
    wanted-any factory ds k cron job,
    eq_iff d.schedule.cron cron,
    Option-cases (wanted factory ds k),
  )

  -- no domain's job id is the one of the revalidation
  jid-other : (n : DomainName) → (jid n == revalidation_job_id) ≡ false
  unfolding jid revalidation_job_id lit list_beq
  jid-other n = refl

  -- what the start of the scheduler comes to
  pub data Started (factory : MonitoredDomain → J) (s : WatcherState MemoryRepo (ApsScheduler J P))
      : Result (Unit {0}) → WatcherState MemoryRepo (ApsScheduler J P) → Type 0 where
    scheduled :
        (t : WatcherState MemoryRepo (ApsScheduler J P))
        → t.repo ≡ s.repo
        → ((n : DomainName)
            → cron_part (Dict.get t.scheduler.jobs (jid n)) ≡ cron_in (memory_get t.repo n))
        → Started factory s (ok tt) t
    refused :
        (t : WatcherState MemoryRepo (ApsScheduler J P)) (cron : Text) (x : Error)
        → t.repo ≡ s.repo
        → any (λ d. d.schedule.cron == cron) (memory_list_all s.repo) ≡ true
        → aps.from_crontab cron ≡ raise x
        → Started factory s (raise x) t

  cron_part-reconciled :
      (k : Text) (w before : Option (Text × J))
      → (k == revalidation_job_id) ≡ false
      → cron_part (reconciled aps k w before) ≡ cron_part w
  cron_part-reconciled k (some entry) before h = refl
  cron_part-reconciled k none before h = rw h refl

  from-Leaves :
      (factory : MonitoredDomain → J) (s : WatcherState MemoryRepo (ApsScheduler J P))
      (r : Result (Unit {0})) (a : ApsScheduler J P)
      → IsDict s.repo
      → Keyed s.repo
      → Leaves aps
          (λ k. reconciled aps k (wanted factory (values s.repo) k) (Dict.get s.scheduler.jobs k))
          (Targeted aps (fill factory (values s.repo) []))
          r
          a
      → Started factory s
          (continue r (λ u. mark_started aps) a).0
          (record s { scheduler = (continue r (λ u. mark_started aps) a).1 })
  unfolding memory_get memory_list_all
  from-Leaves factory s (ok u) a h keyed left = scheduled _ refl (λ n.
      ap cron_part (left (jid n))
      ∙ cron_part-reconciled (jid n) (wanted factory (values s.repo) (jid n))
          (Dict.get s.scheduler.jobs (jid n)) (jid-other n)
      ∙ wanted-listed factory s.repo n h keyed)
  from-Leaves factory s (raise x) a h keyed (cron, ((k, (job, target)), c)) =
      refused _ cron x refl
        (wanted-any factory (values s.repo) k cron job
          (sym (get-fill_all factory (values s.repo) k) ∙ target))
        c

  -- Where the façade starts an `ApsScheduler` that does not run and whose `_jobs` agree with the job
  -- store, over the in-memory repository, which keeps each domain under its name, every domain of
  -- the repository has its job then, with its own cron text, and there is no other job of a domain;
  -- or the start raises what `from_crontab` raised for the cron text of a domain of the repository.
  -- Either way the repository is as before.
  pub start_scheduler-Started :
      (factory : MonitoredDomain → J) (s : WatcherState MemoryRepo (ApsScheduler J P))
      → IsDict s.repo
      → Keyed s.repo
      → ((k : Text) → contains s.scheduler.jobs k ≡ aps.has_job k s.scheduler.scheduler)
      → s.scheduler.started ≡ false
      → Started factory s
          (start_scheduler memory_repository (aps_service aps factory) s).0
          (start_scheduler memory_repository (aps_service aps factory) s).1
  unfolding start_scheduler aps_service memory_repository Aps.start Aps.bootstrap memory_list_all
  start_scheduler-Started factory s h keyed step idle = at s.scheduler.started idle
    where
      at :
          (flag : Bool)
          → flag ≡ false
          → Started factory s
              (unless_started aps flag
                (reconcile aps factory (values s.repo) >> mark_started aps)
                s.scheduler).0
              (record s {
                scheduler =
                    (unless_started aps flag
                      (reconcile aps factory (values s.repo) >> mark_started aps)
                      s.scheduler).1;
              })
      at true h2 = absurd (ground arith)
      at false h2 =
          from-Leaves factory s (reconcile aps factory (values s.repo) s.scheduler).0
            (reconcile aps factory (values s.repo) s.scheduler).1 h keyed
            (reconcile-Leaves aps factory (values s.repo) s.scheduler step)
