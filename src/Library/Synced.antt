-- ===== src/Library/Synced.antt =====
-- The repository and the scheduler stay in step, and what is known of a domain's last check is kept.
use domain_watcher.Application.Scheduling
use domain_watcher.Application.Scheduling.{MemoryScheduler, jid}
use domain_watcher.Dict
use domain_watcher.Dict.{get-insert, get-remove}
use domain_watcher.Library.Requests.{WatchRequest, DomainWatcher, last_of}
use domain_watcher.Library.Watching.{Ends, watching, declined, unscheduled, ensure_watching-Ends}
use domain_watcher.Library.{
  SchedulerService, WatcherState, upsert, save, merge, upsert_initial, seed_one, seed,
  ensure_watching, remove_watching,
}
use domain_watcher.Monitoring.Repository.{MonitoredDomainRepository}
use domain_watcher.Monitoring.{MonitoredDomain, check_domain, no_items, is_descending}
use domain_watcher.Prelude.{
  not, eq_iff, ◌≡◌, refl, Bool, true, false, Option, none, some, List, [], ◌∷◌, if◌then◌else◌, ◌==◌,
  list_eq, nat_eq, list_beq, map_option, Bool-cases, Option-cases, inl, inr, ap, sym, ◌∙◌, All,
}
use domain_watcher.Shared.DomainName.{DomainName}
use domain_watcher.Shared.Errors.{Result, Result-cases, ok, value_error}
use domain_watcher.Shared.Gives.{Gives, value, raise_if-Gives, of-Gives, value_not_raised}
use domain_watcher.Shared.Text.{Text, lit, is_empty}

-- the cron text of a job
abbrev pub cron_part : {J : Type 0} → Option (Text × J) → Option Text
cron_part none = none
cron_part (some (cron, job)) = some cron

pub cron_part-if :
    {J : Type 0} (b : Bool) (x y : Option (Text × J))
    → cron_part (if b then x else y) ≡ (if b then cron_part x else cron_part y)
cron_part-if true x y = refl
cron_part-if false x y = refl

pub same_jid : (d n : DomainName) → (jid d == jid n) ≡ (d.value == n.value)
unfolding jid lit list_beq
same_jid d n = refl

-- `MemoryScheduler` as the façade sees it
unfoldable pub memory_scheduler : {J : Type 0} → SchedulerService J (MemoryScheduler J)
unfolding Scheduling.add_or_update_job Scheduling.remove_job Scheduling.start Scheduling.stop
memory_scheduler = record {
  add_or_update_job =
      λ d cron job s. (ok tt, record s { jobs = Scheduling.add_or_update_job d cron job s.jobs });
  remove_job = λ d s. record s { jobs = Scheduling.remove_job d s.jobs };
  start = λ domains s. (ok tt, Scheduling.start s);
  stop = λ s. (ok tt, Scheduling.stop s);
  cron_of = λ s d. cron_part (Dict.get s.jobs (jid d));
  added = λ d cron job s n done.
      rw (← same_jid d n)
        (ap cron_part (get-insert s.jobs (jid d) (jid n) (cron, job)) ∙ cron_part-if _ _ _);
  refused = λ d cron job s e n done. value_not_raised done;
  removed = λ d s n.
      rw (← same_jid d n) (ap cron_part (get-remove s.jobs (jid d) (jid n)) ∙ cron_part-if _ _ _);
}

abbrev pub cron_in : Option MonitoredDomain → Option Text
cron_in = map_option (λ d. d.schedule.cron)

cron_in-if :
    (b : Bool) (x y : Option MonitoredDomain)
    → cron_in (if b then x else y) ≡ (if b then cron_in x else cron_in y)
cron_in-if true x y = refl
cron_in-if false x y = refl

-- a call of the façade
pub data Call : Type 0 where
  ensuring : DomainName → WatchRequest → Call
  removing : DomainName → Call

module _ {T J R A : Type 0} (repo : MonitoredDomainRepository R) (scheduler : SchedulerService J A)
    (watcher : DomainWatcher T J) where
  -- Every domain of the repository has its job, with its own cron text, and there is no other job.
  abbrev pub Synced : WatcherState R A → Type 0
  Synced s = (n : DomainName) → scheduler.cron_of s.scheduler n ≡ cron_in (repo.get s.repo n)

  -- the state after a call, whether it raises or not
  unfoldable pub after : Call → WatcherState R A → WatcherState R A
  unfolding ensure_watching remove_watching
  after (ensuring domain request) s = (ensure_watching repo scheduler watcher domain request s).1
  after (removing domain) s = remove_watching repo scheduler domain s

  unfoldable pub calls : List Call → WatcherState R A → WatcherState R A
  unfolding after
  calls [] s = s
  calls (c ∷ cs) s = calls cs (after c s)

  module _
      (accepts : (d : DomainName) (cron : Text) (job : J) (a : A)
        → (scheduler.add_or_update_job d cron job a).0 ≡ ok tt) where
    Ends-Synced :
        (domain : DomainName) (request : WatchRequest) (s : WatcherState R A)
        (r : Result (Unit {0})) (t : WatcherState R A)
        → Ends repo watcher scheduler domain request s r t
        → Synced s
        → Synced t
    Ends-Synced domain request s r t (watching new q held timed) h = λ n.
        timed n
        ∙ rw (held n, h n)
            (sym (cron_in-if (domain.value == n.value) (some new) (repo.get s.repo n)))
    Ends-Synced domain request s r t (declined e) h = h
    Ends-Synced domain request s r t (unscheduled new q no_job held timed) h =
        value_not_raised (
          sym (accepts new.name new.schedule.cron (watcher.make_job new.name) s.scheduler) ∙ no_job)

    after-Synced : (c : Call) (s : WatcherState R A) → Synced s → Synced (after c s)
    unfolding after remove_watching
    after-Synced (ensuring domain request) s h =
        Ends-Synced domain request s _ _
          (ensure_watching-Ends repo watcher scheduler domain request s) h
    after-Synced (removing domain) s h = λ n.
        scheduler.removed domain s.scheduler n
        ∙ rw (repo.get-remove domain s.repo n, h n)
            (sym (cron_in-if (domain.value == n.value) none (repo.get s.repo n)))

    -- With a scheduler that takes every job, the repository and the scheduler stay in step through
    -- any calls of `ensure_watching` and `remove_watching`, whether they raise or not.
    pub calls-cron_of :
        (cs : List Call) (s : WatcherState R A) (n : DomainName)
        → Synced s
        → scheduler.cron_of (calls cs s).scheduler n ≡ cron_in (repo.get (calls cs s).repo n)
    unfolding calls
    calls-cron_of [] s n h = h n
    calls-cron_of (c ∷ cs) s n h = calls-cron_of cs (after c s) n (after-Synced c s h)

-- A seeded domain is the one that was asked for.
check_domain-same : (d : MonitoredDomain) → Gives (λ x. x ≡ d) (check_domain d)
unfolding check_domain
check_domain-same d = raise_if-Gives (no_items d.notify_thresholds) value_error _ (λ _.
    raise_if-Gives (not (is_descending d.notify_thresholds)) value_error _ (λ _.
      raise_if-Gives (no_items d.channels) value_error _
        (λ _. raise_if-Gives (is_empty d.checker_id) value_error _ (λ _. value refl))))

module _ {R : Type 0} (repo : MonitoredDomainRepository R) where
  update-last :
      (d : MonitoredDomain) (r : R) (n : DomainName)
      → d.last_check ≡ last_of (repo.get r d.name)
      → last_of (repo.get (repo.update d r) n) ≡ last_of (repo.get r n)
  update-last d r n h = elim (Bool-cases (d.name.value == n.value)) [
    | inl e ↦
        let same : n ≡ d.name =
          ap (λ v. record { value = v }) (sym ((eq_iff d.name.value n.value).0 e)) in
        rw (repo.get-update d r n, e, same) h
    | inr e ↦ rw (repo.get-update d r n, e) refl
  ]

  module _ {A : Type 0} where
    -- No domain's last check is another one.
    abbrev KeepsLast : WatcherState R A → WatcherState R A → Type 0
    KeepsLast s t = (n : DomainName) → last_of (repo.get t.repo n) ≡ last_of (repo.get s.repo n)

    merge-last :
        (existing d : MonitoredDomain) (s : WatcherState R A)
        → repo.get s.repo d.name ≡ some existing
        → KeepsLast s (merge repo existing d s).1
    unfolding merge save upsert
    merge-last existing d s g =
        elim (Result-cases (check_domain (record d { last_check = existing.last_check }))) [
          | inl (merged, e) ↦
              let same =
                of-Gives _ merged
                  (check_domain-same (record d { last_check = existing.last_check })) e in
              rw (e, same)
                (λ n.
                  update-last (record d { last_check = existing.last_check }) s.repo n (rw g refl))
          | inr (x, e) ↦ rw e (λ n. refl)
        ]

    seed_one-last :
        (d : MonitoredDomain) (s : WatcherState R A)
        → d.last_check ≡ none
        → KeepsLast s (seed_one repo d s).1
    unfolding seed_one upsert_initial save upsert
    seed_one-last d s h n = elim (Option-cases (repo.get s.repo d.name)) [
      | inl e ↦ rw (e, repo.add_lem d s.repo, e) (update-last d s.repo n (rw (e, h) refl))
      | inr (existing, e) ↦ rw e (merge-last existing d s e n)
    ]

    -- The seeding of `start` keeps the last check of every domain, even where it raises, if the
    -- initial domains have none.
    pub seed-last_of :
        (ds : List MonitoredDomain) (s : WatcherState R A) (n : DomainName)
        → All (λ d. d.last_check ≡ none) ds
        → last_of (repo.get (seed repo ds s).1.repo n) ≡ last_of (repo.get s.repo n)
    unfolding seed
    seed-last_of [] s n h = refl
    seed-last_of (d ∷ ds) s n (h, hs) = elim (Result-cases (seed_one repo d s).0) [
      | inl (u, e) ↦ rw e (seed-last_of ds (seed_one repo d s).1 n hs ∙ seed_one-last d s h n)
      | inr (x, e) ↦ rw e (seed_one-last d s h n)
    ]
