-- ===== src/Lib.antt =====
-- A model of domain_watcher, a service that watches the expiration of domain names. On each tick of
-- a scheduler a domain is checked (RDAP, WHOIS or a script), the result is stored, and thresholds
-- that have been reached are alerted over the domain's channels, once for each expiration.
--
-- The files and the code (paths from the root of the repository, under src/domain_watcher/):
--   Shared           core/shared: `DomainName`, `Duration`, the exceptions (errors.py) as values of
--                    `Error`, `Result` for code that may raise, `Exec` for code that also changes
--                    state. What was written before a raise stays written.
--   Checking         core/checking: `CheckOutcome`, `CheckResult`, `RetryPolicy`.
--   Monitoring       core/monitoring: `MonitoredDomain`; Monitoring/Repository is the port with its
--                    laws, and infrastructure/persistence/memory/monitored.py.
--   Notification     core/notification: `Alert`, `Channel`; Policy is `NotificationPolicy.alerts_for`;
--                    Idempotency is the port with its law, and
--                    infrastructure/persistence/memory/idempotency.py.
--   Application      the events of core/*/events.py (Events), the injected services (World),
--                    application/use_cases/check_domain.py (CheckDomain),
--                    application/use_cases/dispatch_notifications.py (Dispatch),
--                    application/services/parsing_service.py (ParsingService),
--                    application/services/revalidation_service.py (Revalidation),
--                    application/event_bus.py (EventBus), application/scheduling.py
--                    (Scheduling), infrastructure/scheduling/apscheduler.py (Aps),
--                    application/channel_resolver.py (ChannelResolver),
--                    infrastructure/registry.py (Registry) and
--                    application/use_cases/reload_config.py (Reload). ParsingService/Validated is
--                    the wiring of the pipeline into the parsing service in composition.py.
--   Library          `DomainWatcher` of interfaces/library/api.py: Requests are its arguments,
--                    Synced and OverAps put `MemoryScheduler` and `ApsScheduler` below it,
--                    CheckNow is `check_now` and the job of a domain.
--   Parsing          core/parsing/value_objects.py, infrastructure/parsers/regex.py (Regex),
--                    infrastructure/parsers/validation_pipeline.py (Validation),
--                    infrastructure/parsers/safety.py (Safety) and
--                    infrastructure/persistence/memory/learned_rules.py (LearnedRules).
--   Prelude, Dict    shared names, Boolean tests, lists, integers, Python's dict.
--   Tests            concrete data, and the theorems applied to it.
-- A constructor of the code that validates its arguments is a function `make…` with a `Result`; its
-- fields are a record. `__post_init__` tests of a type, which Python does not check, are left out.
--
-- How the parts interact: `CheckDomainUseCase.execute` reads a domain from the repository, asks its
-- checker, stores the result and publishes an event. `DispatchNotificationsUseCase.execute` takes
-- the check before and the one now, asks the policy for the alerts, and runs one delivery task for
-- each alert and channel, which looks its key up in the idempotency store, sends, and records it.
-- A WHOIS checker has its text read by `ParsingService.parse`, which tries the static rules, the
-- learned ones, and last a suggester, whose rule goes through the six gates of the pipeline and is
-- stored. Subscribers of the event bus have two queues each, of which the one for critical events
-- has no bound; a reader takes from both by two tasks, and publishers may run before it goes on.
-- `DomainWatcher` keeps the repository and the scheduler in step; a scheduler calls the check and
-- the dispatch of each domain. `ConfigHolder` hands each new configuration to its subscribers, of
-- which `RegistrySubscriber` reloads, replaces, adds and removes plugins.
--
-- Time is a number of microseconds from `datetime.min`; the upper end of the range of `datetime` is
-- not modelled, nor an aware datetime that lies before `datetime.min` in UTC. Text is a list of code
-- points. Parameters stand for what is not in the repository: the clock, the checkers, the notifiers
-- and the sleeper (`Environment`), float arithmetic of the back-off, which may raise (`Floats`),
-- sha256, the IDNA codec, the regex engine and the datetime library (`Runtime`). Instead of float
-- tokens the limiter has exact ones. The tasks that `asyncio.gather` runs are interleaved by an
-- arbitrary schedule, whose steps lie between two points of suspension; the jobs of `DomainWatcher`
-- are taken one after the other, though the code may overlap them; the locks of the in-memory stores
-- make each of their methods one step. The retry loop is structural in the number of rounds left,
-- which `execute` takes from the policy, so no fuel is needed.
--
-- Not modelled: SQL persistence, HTTP, SMTP and WHOIS transports, the LLM suggester, the discovery
-- of plugins, metrics, the command line and the rest of the composition root, which are input,
-- output and wiring of third-party libraries; the schema and the loader of configuration files;
-- the hooks and the event subscriptions of `DomainWatcher`. The scheduler of the
-- library apscheduler is an interface with the laws of its job store (`AsyncIoScheduler`).
pub mod Prelude
pub mod Dict
pub mod Shared
pub mod Checking
pub mod Monitoring
pub mod Notification
pub mod Application
pub mod Library
pub mod Parsing
pub mod Tests
