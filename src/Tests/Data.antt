-- ===== src/Tests/Data.antt =====
-- A watched domain, a result, a channel, an alert and an environment whose clock moves on by one
-- microsecond with each reading.
use domain_watcher.Application.World.{Environment, World}
use domain_watcher.Checking.Retry.{Floats, RetryPolicy}
use domain_watcher.Checking.{CheckOutcome, CheckResult}
use domain_watcher.Monitoring.Repository.{MemoryRepo}
use domain_watcher.Monitoring.{ChannelId, MonitoredDomain}
use domain_watcher.Notification.Idempotency.{MemoryStore}
use domain_watcher.Notification.Policy.{NotificationPolicy}
use domain_watcher.Notification.{Alert, Channel, warning}
use domain_watcher.Parsing.{ParseRule, iso_8601}
use domain_watcher.Parsing.Engine.{Runtime, done}
use domain_watcher.Prelude.Int.{pos}
use domain_watcher.Prelude.{ℕ, zero, suc, ◌+◌, ◌*◌, ◌^◌, false, [], ◌∷◌, none, some}
use domain_watcher.Shared.DomainName.{DomainName}
use domain_watcher.Shared.Duration.{Duration}
use domain_watcher.Shared.Errors.{ok}
use domain_watcher.Shared.Text.{Text}
use domain_watcher.Shared.Time.{Instant, second, aware}

abbrev pub floats : Floats
floats = record { Float = ℕ; is_negative = λ f. false; scaled = λ s f k. ok (pos (s * f ^ k)) }

abbrev pub retry_policy : RetryPolicy floats
retry_policy = record { max_attempts = 3; base_delay = record { seconds = 5 }; factor = 2 }

abbrev pub site : DomainName
site = record { value = b'a' ∷ b'.' ∷ b'b' ∷ [] }

abbrev pub expiry : Instant
expiry = 9000000 * second

abbrev pub good_result : CheckResult
good_result = record {
  domain = site;
  outcome = CheckOutcome.ok;
  expires_at = some expiry;
  source = b'w' ∷ [];
  raw = none;
  error = none;
}

abbrev pub week : Duration
week = record { seconds = 604800 }

abbrev pub day : Duration
day = record { seconds = 86400 }

abbrev pub mail_id : ChannelId
mail_id = record { value = b'm' ∷ [] }

abbrev pub mail : Channel
mail = record { id = mail_id; notifier_id = b'n' ∷ []; routing = [] }

abbrev pub watched : MonitoredDomain
watched = record {
  name = site;
  schedule = record { cron = b'*' ∷ [] };
  checker_id = b'w' ∷ [];
  notify_thresholds = week ∷ day ∷ [];
  channels = mail_id ∷ [];
  last_check = none;
  metadata = [];
}

abbrev pub environment : Environment ℕ
environment = record {
  now = λ e. (e, e + 1);
  check = λ id name e. (ok good_result, e + 1);
  send = λ id alert channel e. (ok tt, e + 1);
  sleep = λ s e. e + s * second;
}

abbrev pub repo_world : World ℕ MemoryRepo
repo_world = record { env = 7; store = (site.value, watched) ∷ []; published = [] }

abbrev pub fired_world : World ℕ MemoryStore
fired_world = record { env = 7; store = []; published = [] }

unfoldable pub zeros : ℕ → Text
zeros zero = []
zeros (suc n) = b'0' ∷ zeros n

abbrev pub alert : Alert
alert = record {
  domain = site;
  expires_at = expiry;
  threshold = week;
  severity = warning;
  cycle_id = b'0' ∷ [];
  metadata = [];
}

abbrev pub policy : NotificationPolicy
policy = record { thresholds = week ∷ day ∷ [] }

-- An engine whose every pattern has one group, and matches nothing.
abbrev pub runtime : Runtime
runtime = record {
  groups = λ raw. some 1;
  search = λ raw text. none;
  registration_values = λ text. [];
  parse_int = λ text. done (pos 0);
  from_iso = λ text. done (aware 0);
  strptime = λ text format. done (aware 0);
  date = λ y m d. done (aware 0);
  from_timestamp = λ s. done 0;
  zone = λ name. done (λ n. ok n);
  isoformat = λ at. [];
}

abbrev pub rule : ParseRule
rule = record {
  tld = b'b' ∷ [];
  expires_regex = b'(' ∷ b'.' ∷ b')' ∷ [];
  date_format = iso_8601;
  timezone = b'U' ∷ [];
  strptime_format = none;
}
