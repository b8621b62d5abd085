-- ===== src/Application/Aps/InStep.antt =====
-- `_jobs` and the scheduler of apscheduler have the same job ids.
use domain_watcher.Application.Aps.{
  AsyncIoScheduler, ApsScheduler, revalidation_job_id, remove_if_there, add_aps_job, note, add_job,
  is_desired, add_or_update_job, discard, remove_job, settle_job, settle_all, drop_missing,
  reconcile, bootstrap, unless_started, mark_started, start, shut_down, stop, interval_text,
  add_revalidation_job, remove_revalidation_job,
}
use domain_watcher.Application.Scheduling.{Jobs, jid, fill}
use domain_watcher.Dict
use domain_watcher.Dict.{keys, get-nil, contains, contains-insert, get-remove}
use domain_watcher.Monitoring.{MonitoredDomain}
use domain_watcher.Prelude.{
  ℕ, ◌≡◌, refl, Bool, true, false, ◌||◌, Option, none, some, List, [], ◌∷◌, ◌==◌, nat_eq, list_eq,
  Eq, ltb, if◌then◌else◌, Bool-cases, inl, inr, arith, eq_iff, eq_refl, is_some, ap, ◌∙◌, sym,
}
use domain_watcher.Shared.DomainName.{DomainName}
use domain_watcher.Shared.Errors.{Result-cases}
use domain_watcher.Shared.Exec.{◌>>◌}
use domain_watcher.Shared.Text.{Text}

module _ {J P : Type 0} ⦃e : Eq J⦄ (aps : AsyncIoScheduler J P) where
  abbrev pub InStep : ApsScheduler J P → Type 0
  InStep s = (k : Text) → contains s.jobs k ≡ aps.has_job k s.scheduler

  pub cleared :
      (replace : Bool) (id : Text) (p : P)
      → (replace ≡ false → aps.has_job id p ≡ false)
      → aps.has_job id (if replace then remove_if_there aps id p else p) ≡ false
  cleared false id p h = h refl
  cleared true id p h = elim (Bool-cases (aps.has_job id p)) [
    | inl there ↦ rw there (ground (arith, aps.has_job-remove_job id p id, eq_refl id))
    | inr gone ↦ rw gone gone
  ]

  others :
      (replace : Bool) (id : Text) (p : P) (k : Text)
      → (id == k) ≡ false
      → aps.has_job k (if replace then remove_if_there aps id p else p) ≡ aps.has_job k p
  others false id p k h = refl
  others true id p k h = elim (Bool-cases (aps.has_job id p)) [
    | inl there ↦ rw there (ground (arith, aps.has_job-remove_job id p k))
    | inr gone ↦ rw gone refl
  ]

  -- a job of another state that is handed over to a scheduler without it, and noted
  hand_over-InStep :
      (id : Text) (trigger : aps.Trigger) (cron : Text) (job : J) (s : ApsScheduler J P) (p : P)
      → aps.has_job id p ≡ false
      → ((k : Text) → (id == k) ≡ false → aps.has_job k p ≡ aps.has_job k s.scheduler)
      → InStep s
      → InStep (record s {
        scheduler = (aps.add_job id trigger job p).1;
        jobs = Dict.insert s.jobs id (cron, job);
      })
  hand_over-InStep id trigger cron job s p gone same h k =
      rw (contains-insert s.jobs id k (cron, job), aps.has_job-add_job id trigger job p k gone)
        (ground (arith, same k, h k))

  pub add-InStep :
      (replace : Bool) (id cron : Text) (job : J) (s : ApsScheduler J P)
      → (replace ≡ false → contains s.jobs id ≡ false)
      → InStep s
      → InStep ((add_aps_job aps replace id cron job >> note aps id cron job) s).1
  unfolding add_aps_job
  add-InStep replace id cron job s absent h = elim (Result-cases (aps.from_crontab cron)) [
    | inl (trigger, c) ↦
        let p = if replace then remove_if_there aps id s.scheduler else s.scheduler in
        let gone = cleared replace id s.scheduler (λ r. sym (h id) ∙ absent r) in
        rw (c, aps.add_job-ok id trigger job p gone)
          (hand_over-InStep id trigger cron job s p gone (others replace id s.scheduler) h)
    | inr (x, c) ↦ rw c h
  ]

  discard-InStep : (id : Text) (s : ApsScheduler J P) → InStep s → InStep (discard aps id s)
  discard-InStep id s h k = elim (Bool-cases (aps.has_job id s.scheduler)) [
    | inl there ↦
        rw (there, get-remove s.jobs id k, aps.has_job-remove_job id s.scheduler k)
          (ground (arith, h k))
    | inr gone ↦ rw (gone, get-remove s.jobs id k) (ground (arith, h k, h id, eq_iff id k))
  ]

  pub settle_job-InStep :
      (o : Option (Text × J)) (id cron : Text) (job : J) (s : ApsScheduler J P)
      → Dict.get s.jobs id ≡ o
      → InStep s
      → InStep (settle_job aps o id cron job s).1
  unfolding settle_job
  settle_job-InStep none id cron job s g h = add-InStep false id cron job s (λ r. ap is_some g) h
  settle_job-InStep (some (old, older)) id cron job s g h = elim (Bool-cases (old == cron)) [
    | inl same ↦ rw same (elim (Bool-cases (older == job)) [
      | inl kept ↦ rw kept h
      | inr other ↦ rw other (add-InStep true id cron job s (λ r. absurd (ground arith)) h)
    ])
    | inr moved ↦ rw moved (add-InStep true id cron job s (λ r. absurd (ground arith)) h)
  ]

  settle_all-InStep :
      (target : Jobs J) (s : ApsScheduler J P) → InStep s → InStep (settle_all aps target s).1
  unfolding settle_all
  settle_all-InStep [] s h = h
  settle_all-InStep ((id, (cron, job)) ∷ target) s h =
      let step = settle_job-InStep (Dict.get s.jobs id) id cron job s refl h in
      elim (Result-cases (settle_job aps (Dict.get s.jobs id) id cron job s).0) [
        | inl (u, r) ↦ rw r (settle_all-InStep target _ step)
        | inr (x, r) ↦ rw r step
      ]

  drop_missing-InStep :
      (ids : List Text) (target : Jobs J) (s : ApsScheduler J P)
      → InStep s
      → InStep (drop_missing aps ids target s)
  unfolding drop_missing
  drop_missing-InStep [] target s h = h
  drop_missing-InStep (id ∷ ids) target s h =
      elim (Bool-cases (contains target id || id == revalidation_job_id)) [
        | inl keeps ↦ rw (keeps, drop_missing) (drop_missing-InStep ids target s h)
        | inr goes ↦
            rw (goes, drop_missing)
              (drop_missing-InStep ids target (discard aps id s) (discard-InStep id s h))
      ]

  reconcile-InStep :
      (factory : MonitoredDomain → J) (domains : List MonitoredDomain) (s : ApsScheduler J P)
      → InStep s
      → InStep (reconcile aps factory domains s).1
  unfolding reconcile
  reconcile-InStep factory domains s h =
      let target = fill factory domains [] in
      let step = settle_all-InStep target s h in
      elim (Result-cases (settle_all aps target s).0) [
        | inl (u, r) ↦ rw r (
            drop_missing-InStep (keys (settle_all aps target s).1.jobs) target
              (settle_all aps target s).1 step)
        | inr (x, r) ↦ rw r step
      ]

  bootstrap-InStep :
      (factory : Option (MonitoredDomain → J)) (domains : List MonitoredDomain)
      (s : ApsScheduler J P)
      → InStep s
      → InStep (bootstrap aps factory domains s).1
  unfolding bootstrap
  bootstrap-InStep none domains s h = h
  bootstrap-InStep (some factory) domains s h = reconcile-InStep factory domains s h

  unless_started-InStep :
      (flag : Bool) (factory : Option (MonitoredDomain → J)) (domains : List MonitoredDomain)
      (s : ApsScheduler J P)
      → InStep s
      → InStep (unless_started aps flag (bootstrap aps factory domains >> mark_started aps) s).1
  unless_started-InStep true factory domains s h = h
  unless_started-InStep false factory domains s h =
      let step = bootstrap-InStep factory domains s h in
      elim (Result-cases (bootstrap aps factory domains s).0) [
        | inl (u, r) ↦ rw r (λ k. step k ∙ sym (aps.has_job-start _ k))
        | inr (x, r) ↦ rw r step
      ]

  shut_down-InStep : (flag : Bool) (s : ApsScheduler J P) → InStep s → InStep (shut_down aps flag s)
  shut_down-InStep false s h = h
  shut_down-InStep true s h =
      λ k. ap is_some (get-nil {V = Text × J} k) ∙ sym (aps.has_job-shutdown s.scheduler k)

  -- A call of the adapter.
  pub data Call : Type 0 where
    adding updating : DomainName → Text → J → Call
    removing : DomainName → Call
    reconciling : (MonitoredDomain → J) → List MonitoredDomain → Call
    starting : Option (MonitoredDomain → J) → List MonitoredDomain → Call
    stopping : Call
    revalidating : ℕ → J → Call
    unrevalidating : Call

  -- the state after a call, whether it raises or not
  unfoldable pub after : Call → ApsScheduler J P → ApsScheduler J P
  unfolding add_job add_or_update_job remove_job reconcile start stop add_revalidation_job
      remove_revalidation_job
  after (adding domain cron job) s = (add_job aps domain cron job s).1
  after (updating domain cron job) s = (add_or_update_job aps domain cron job s).1
  after (removing domain) s = remove_job aps domain s
  after (reconciling factory domains) s = (reconcile aps factory domains s).1
  after (starting factory domains) s = (start aps factory domains s).1
  after stopping s = stop aps s
  after (revalidating seconds job) s = (add_revalidation_job aps seconds job s).1
  after unrevalidating s = remove_revalidation_job aps s

  unfoldable pub calls : List Call → ApsScheduler J P → ApsScheduler J P
  unfolding after
  calls [] s = s
  calls (c ∷ cs) s = calls cs (after c s)

  after-InStep : (c : Call) (s : ApsScheduler J P) → InStep s → InStep (after c s)
  unfolding after add_job add_or_update_job remove_job start stop add_revalidation_job
      remove_revalidation_job
  after-InStep (adding domain cron job) s h = elim (Bool-cases (contains s.jobs (jid domain))) [
    | inl there ↦ rw (there, after) h
    | inr new ↦ rw (new, after) (add-InStep false (jid domain) cron job s (λ r. new) h)
  ]
  after-InStep (updating domain cron job) s h =
      elim (Bool-cases (is_desired aps (Dict.get s.jobs (jid domain)) cron job)) [
        | inl kept ↦ rw (kept, after) h
        | inr other ↦
            rw (other, after)
              (add-InStep true (jid domain) cron job s (λ r. absurd (ground arith)) h)
      ]
  after-InStep (removing domain) s h = elim (Bool-cases (contains s.jobs (jid domain))) [
    | inl there ↦ rw (there, after) (discard-InStep (jid domain) s h)
    | inr new ↦ rw (new, after) h
  ]
  after-InStep (reconciling factory domains) s h = reconcile-InStep factory domains s h
  after-InStep (starting factory domains) s h = unless_started-InStep s.started factory domains s h
  after-InStep stopping s h = shut_down-InStep s.started s h
  after-InStep (revalidating seconds job) s h = elim (Bool-cases (ltb 0 seconds)) [
    | inl positive ↦
        let id = revalidation_job_id in
        let p = remove_if_there aps id s.scheduler in
        let gone = cleared true id s.scheduler (λ r. absurd (ground arith)) in
        rw (positive, after, aps.add_job-ok id (aps.interval seconds) job p gone)
          (hand_over-InStep id (aps.interval seconds) (interval_text aps seconds) job s p gone
            (others true id s.scheduler) h)
    | inr none_at_all ↦ rw (none_at_all, after) h
  ]
  after-InStep unrevalidating s h = discard-InStep revalidation_job_id s h

  -- Through any calls of the adapter, whether they raise or not, `_jobs` and the job store of
  -- apscheduler have the same ids.
  pub calls-has_job :
      (cs : List Call) (s : ApsScheduler J P) (k : Text)
      → ((i : Text) → contains s.jobs i ≡ aps.has_job i s.scheduler)
      → contains (calls cs s).jobs k ≡ aps.has_job k (calls cs s).scheduler
  unfolding calls
  calls-has_job [] s k h = h k
  calls-has_job (c ∷ cs) s k h = calls-has_job cs (after c s) k (after-InStep c s h)
