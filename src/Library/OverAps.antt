-- ===== src/Library/OverAps.antt =====
-- `ApsScheduler` as the scheduler of the façade `DomainWatcher` of interfaces/library/api.py.
use domain_watcher.Application.Aps
use domain_watcher.Application.Aps.{
  AsyncIoScheduler, ApsScheduler, revalidation_job_id, remove_if_there, add_aps_job, note,
  is_desired, discard, unless_started, mark_started, reconcile,
}
use domain_watcher.Application.Scheduling.{jid}
use domain_watcher.Dict
use domain_watcher.Dict.{
  Dict, values, contains, IsDict, insert-IsDict, get-insert, get-remove, get-nil,
}
use domain_watcher.Library.Synced.{cron_part, cron_part-if, same_jid}
use domain_watcher.Library.{SchedulerService}
use domain_watcher.Monitoring.{MonitoredDomain}
use domain_watcher.Prelude.{
  ◌≡◌, refl, Bool, true, Option, none, some, ◌==◌, nat_eq, list_eq, Eq, if◌then◌else◌, Bool-cases,
  Option-cases, inl, inr, arith, eq_iff, ap, ◌∙◌, sym,
}
use domain_watcher.Shared.DomainName.{DomainName}
use domain_watcher.Shared.Errors.{Error, Result, Result-cases, ok, raise}
use domain_watcher.Shared.Exec.{◌>>◌}
use domain_watcher.Shared.Gives.{value_not_raised}
use domain_watcher.Shared.Text.{Text}

module _ {J P : Type 0} ⦃e : Eq J⦄ (aps : AsyncIoScheduler J P) where
  -- `_jobs` after an update that ends, and after one that raises
  abbrev pub Updated :
      Text → Text → J → ApsScheduler J P → Result (Unit {0}) → ApsScheduler J P → Type 0
  Updated id cron job s (ok u) t =
      (k : Text) → Dict.get t.jobs k ≡ (if id == k then some (cron, job) else Dict.get s.jobs k)
  Updated id cron job s (raise x) t = t.jobs ≡ s.jobs

  pub add-Updated :
      (replace : Bool) (id cron : Text) (job : J) (s : ApsScheduler J P)
      → Updated id cron job s
          ((add_aps_job aps replace id cron job >> note aps id cron job) s).0
          ((add_aps_job aps replace id cron job >> note aps id cron job) s).1
  unfolding add_aps_job
  add-Updated replace id cron job s = elim (Result-cases (aps.from_crontab cron)) [
    | inl (trigger, c) ↦
        let p = if replace then remove_if_there aps id s.scheduler else s.scheduler in
        rw c (elim (Result-cases (aps.add_job id trigger job p).0) [
          | inl (u, r) ↦ rw r (λ k. get-insert s.jobs id k (cron, job))
          | inr (x, r) ↦ rw r refl
        ])
    | inr (x, c) ↦ rw c refl
  ]

  pub update-Updated :
      (d : DomainName) (cron : Text) (job : J) (s : ApsScheduler J P)
      → Updated
          (jid d)
          cron
          job
          s
          (Aps.add_or_update_job aps d cron job s).0
          (Aps.add_or_update_job aps d cron job s).1
  unfolding Aps.add_or_update_job is_desired
  update-Updated d cron job s =
      elim (Bool-cases (is_desired aps (Dict.get s.jobs (jid d)) cron job)) [
        | inl same ↦
            rw (same, Aps.add_or_update_job) (λ k. desired (Dict.get s.jobs (jid d)) k refl same)
        | inr other ↦ rw (other, Aps.add_or_update_job) (add-Updated true (jid d) cron job s)
      ]
    where
      desired :
          (o : Option (Text × J)) (k : Text)
          → Dict.get s.jobs (jid d) ≡ o
          → is_desired aps o cron job ≡ true
          → Dict.get s.jobs k ≡ (if jid d == k then some (cron, job) else Dict.get s.jobs k)
      desired none k g h = absurd (ground arith)
      desired (some (old, older)) k g h =
          ground (arith, eq_iff (jid d) k, eq_iff old cron, eq_iff older job, g)

  -- `ApsScheduler` as the façade sees it, with the factory that is bound to it.
  pub aps_added :
      (d : DomainName) (cron : Text) (job : J) (s : ApsScheduler J P) (n : DomainName)
      (r : Result (Unit {0})) (t : ApsScheduler J P)
      → Updated (jid d) cron job s r t
      → r ≡ ok tt
      → cron_part (Dict.get t.jobs (jid n))
        ≡ (if d.value == n.value then some cron else cron_part (Dict.get s.jobs (jid n)))
  aps_added d cron job s n (ok u) t h e =
      rw (← same_jid d n) (ap cron_part (h (jid n)) ∙ cron_part-if _ _ _)
  aps_added d cron job s n (raise x) t h e = value_not_raised (sym e)

  pub aps_refused :
      (d : DomainName) (cron : Text) (job : J) (s : ApsScheduler J P) (n : DomainName)
      (r : Result (Unit {0})) (t : ApsScheduler J P) (x : Error)
      → Updated (jid d) cron job s r t
      → r ≡ raise x
      → cron_part (Dict.get t.jobs (jid n)) ≡ cron_part (Dict.get s.jobs (jid n))
  aps_refused d cron job s n (ok u) t x h e = value_not_raised e
  aps_refused d cron job s n (raise y) t x h e = ap (λ jobs. cron_part (Dict.get jobs (jid n))) h

  pub aps_removed :
      (d : DomainName) (s : ApsScheduler J P) (n : DomainName)
      → cron_part (Dict.get (Aps.remove_job aps d s).jobs (jid n))
        ≡ (if d.value == n.value then none else cron_part (Dict.get s.jobs (jid n)))
  unfolding Aps.remove_job
  aps_removed d s n = rw (← same_jid d n) (elim (Option-cases (Dict.get s.jobs (jid d))) [
    | inl gone ↦
        rw (gone, Aps.remove_job)
          (elim (Bool-cases (jid d == jid n)) [
            | inl same ↦ rw (same, ← (eq_iff (jid d) (jid n)).0 same, gone) refl
            | inr other ↦ rw other refl
          ])
    | inr (entry, there) ↦
        rw (there, Aps.remove_job)
          (ap cron_part (get-remove s.jobs (jid d) (jid n)) ∙ cron_part-if _ _ _)
  ])

  unfoldable pub aps_service : (MonitoredDomain → J) → SchedulerService J (ApsScheduler J P)
  aps_service factory = record {
    add_or_update_job = Aps.add_or_update_job aps;
    remove_job = Aps.remove_job aps;
    start = Aps.start aps (some factory);
    stop = λ s. (ok tt, Aps.stop aps s);
    cron_of = λ s d. cron_part (Dict.get s.jobs (jid d));
    added = λ d cron job s n. aps_added d cron job s n _ _ (update-Updated d cron job s);
    refused = λ d cron job s x n. aps_refused d cron job s n _ _ x (update-Updated d cron job s);
    removed = aps_removed;
  }
