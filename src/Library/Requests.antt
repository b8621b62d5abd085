-- ===== src/Library/Requests.antt =====
-- The arguments of `DomainWatcher` and of `ensure_watching` in interfaces/library/api.py, and the
-- part of `ensure_watching` in front of its first write.
use domain_watcher.Application.Registry.{Registry}
use domain_watcher.Dict.{Dict, contains}
use domain_watcher.Monitoring.Repository.{MonitoredDomainRepository}
use domain_watcher.Monitoring.{
  ChannelId, LastCheck, MonitoredDomain, make_channel_id, make_schedule, check_domain, no_items,
}
use domain_watcher.Prelude.{not, Option, none, some, List, [], ◌∷◌, list_eq, nat_eq}
use domain_watcher.Shared.DomainName.{DomainName}
use domain_watcher.Shared.Duration.{Duration}
use domain_watcher.Shared.Errors.{Result, ok, value_error, key_error, raise_if, ◌>>=◌, ◌>>◌}
use domain_watcher.Shared.Text.{Text}

-- what `channels` may hold
pub data ChannelArgument : Type 0 where
  given : ChannelId → ChannelArgument
  named : Text → ChannelArgument

-- the keyword arguments of `ensure_watching`
pub record WatchRequest : Type 0 where
  pub checker_id : Text
  pub schedule : Option Text
  pub channels : List ChannelArgument
  pub thresholds : Option (List Duration)
  pub metadata : Option (Dict Text Text)

abbrev pub or_default : {A : Type 0} → Option A → A → A
or_default none d = d
or_default (some a) d = a

-- `c if isinstance(c, ChannelId) else ChannelId(c)`
unfoldable pub channel_id : ChannelArgument → Result ChannelId
channel_id (given c) = ok c
channel_id (named text) = make_channel_id text

unfoldable pub channel_ids : List ChannelArgument → Result (List ChannelId)
unfolding channel_id
channel_ids [] = ok []
channel_ids (c ∷ cs) = do id ← channel_id c; ids ← channel_ids cs; ok (id ∷ ids)

-- `existing.last_check if existing is not None else None`
abbrev pub last_of : Option MonitoredDomain → Option LastCheck
last_of none = none
last_of (some d) = d.last_check

-- `make_job` is `_make_job_callable`, which reads only the name; in the code its closures are new
-- ones at each call, where here they are equal.
pub record DomainWatcher (T J : Type 0) : Type 0 where
  pub checker_registry : Registry T
  pub default_thresholds : List Duration
  pub default_schedule : Text
  pub initial_domains : List MonitoredDomain
  pub make_job : DomainName → J

module _ {T J R : Type 0} (watcher : DomainWatcher T J) (repo : MonitoredDomainRepository R) where
  -- the `MonitoredDomain` that `ensure_watching` builds
  unfoldable pub requested :
      DomainName → WatchRequest → List ChannelId → Option MonitoredDomain → Result MonitoredDomain
  requested domain request ids existing = do
    schedule ← make_schedule (or_default request.schedule watcher.default_schedule)
    check_domain (record {
      name = domain;
      schedule = schedule;
      checker_id = request.checker_id;
      notify_thresholds = or_default request.thresholds watcher.default_thresholds;
      channels = ids;
      last_check = last_of existing;
      metadata = or_default request.metadata [];
    })

  -- the part of `ensure_watching` in front of the first write
  unfoldable pub prepare : DomainName → WatchRequest → R → Result MonitoredDomain
  unfolding channel_ids requested
  prepare domain request r = do
    raise_if (not (contains watcher.checker_registry request.checker_id)) key_error
    ids ← channel_ids request.channels
    raise_if (no_items ids) value_error
    requested domain request ids (repo.get r domain)
