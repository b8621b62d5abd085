-- ===== src/Notification.antt =====
-- core/notification: `AlertSeverity`, `Channel` and `Alert` of entities.py.
pub mod Policy
pub mod Idempotency
use domain_watcher.Dict.{Dict}
use domain_watcher.Monitoring.{ChannelId}
use domain_watcher.Prelude.{
  ℕ, ◌≡◌, Bool, ◌&&◌, ◌||◌, not, List, [], ◌∷◌, leb, length, all, ◌==◌, nat_eq, if◌then◌else◌,
  Option, some,
}
use domain_watcher.Shared.DomainName.{DomainName, drop_newline}
use domain_watcher.Shared.Duration.{Duration}
use domain_watcher.Shared.Errors.{Result, ok, raise, value_error, raise_if, ◌>>=◌, ◌>>◌}
use domain_watcher.Shared.Text.{Text, is_empty, strip}
use domain_watcher.Shared.Time.{Instant, Datetime, is_naive}
use domain_watcher.Checking.{instant}

pub data AlertSeverity : Type 0 where
  info warning critical : AlertSeverity

pub record Channel : Type 0 where
  pub id : ChannelId
  pub notifier_id : Text
  pub routing : Dict Text Text

-- `Channel(…)`
unfoldable pub make_channel : ChannelId → Text → Dict Text Text → Result Channel
make_channel id notifier_id routing = do
  raise_if (is_empty (strip notifier_id)) value_error
  ok (record { id = id; notifier_id = notifier_id; routing = routing })

pub record Alert : Type 0 where
  pub domain : DomainName
  pub expires_at : Instant
  pub threshold : Duration
  pub severity : AlertSeverity
  pub cycle_id : Text
  pub metadata : Dict Text Text

unfoldable pub is_hex : ℕ → Bool
is_hex c = leb b'0' c && leb c b'9' || leb b'a' c && leb c b'f'

-- the text matches `^[0-9a-f]{n}$`; `$` also matches in front of a line feed that ends the text
unfoldable pub hex_re : ℕ → Text → Bool
unfolding is_hex drop_newline all
hex_re n s =
    length s == n && all is_hex s || length (drop_newline s) == n && all is_hex (drop_newline s)

-- `Alert(…)`, with the default metadata
unfoldable pub make_alert : DomainName → Datetime → Duration → AlertSeverity → Text → Result Alert
make_alert domain expires_at threshold severity cycle_id = do
  raise_if (is_naive expires_at) value_error
  raise_if (not (hex_re 16 cycle_id)) value_error
  ok (record {
    domain = domain;
    expires_at = instant expires_at;
    threshold = threshold;
    severity = severity;
    cycle_id = cycle_id;
    metadata = [];
  })
