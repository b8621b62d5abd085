-- ===== src/Application/Events.antt =====
-- The domain events: core/checking/events.py, core/notification/events.py, core/parsing/events.py,
-- core/monitoring/events.py, and `BusOverflow` of application/event_bus.py. An argument that the
-- program always passes is no option here, so the tests for `None` have no counterpart;
-- `correlation_id` is left at its default.
use domain_watcher.Checking.{CheckResult}
use domain_watcher.Monitoring.{ChannelId}
use domain_watcher.Notification.{Alert}
use domain_watcher.Prelude.{ℕ, Bool, true, false, ◌||◌, ltb}
use domain_watcher.Shared.DomainName.{DomainName}
use domain_watcher.Shared.Errors.{Result, ok, value_error, raise_if, ◌>>◌}
use domain_watcher.Shared.Text.{Text, is_empty}
use domain_watcher.Shared.Time.{Instant}

-- The first argument of each is `occurred_at`.
pub data Event : Type 0 where
  domain_added domain_removed : Instant → DomainName → Event
  domain_check_requested : Instant → DomainName → Text → Event
  domain_check_completed : Instant → CheckResult → Event
  -- source, reason, transient
  domain_check_failed : Instant → DomainName → Text → Text → Bool → Event
  notification_dispatched : Instant → Alert → ChannelId → Event
  -- reason, attempts
  notification_failed : Instant → Alert → ChannelId → Text → ℕ → Event
  -- rule id, tld, sample domain, suggester id
  whois_rule_learned : Instant → ℕ → Text → DomainName → Text → Event
  whois_rule_revalidated : Instant → ℕ → Text → Event
  -- rule id, tld, reason
  whois_rule_invalidated : Instant → ℕ → Text → Text → Event
  -- reason, fallback attempted
  parse_failed : Instant → DomainName → Text → Bool → Event
  -- subscriber id, dropped event type
  bus_overflow : Instant → Text → Text → Event

-- `__post_init__` of each class
unfoldable pub is_invalid : Event → Bool
is_invalid (domain_check_requested _ _ checker_id) = is_empty checker_id
is_invalid (domain_check_failed _ _ _ reason _) = is_empty reason
is_invalid (notification_failed _ _ _ reason attempts) = is_empty reason || ltb attempts 1
is_invalid (whois_rule_learned _ id tld _ suggester) =
    ltb id 1 || is_empty tld || is_empty suggester
is_invalid (whois_rule_revalidated _ id tld) = ltb id 1 || is_empty tld
is_invalid (whois_rule_invalidated _ id tld reason) = ltb id 1 || is_empty tld || is_empty reason
is_invalid (parse_failed _ _ reason _) = is_empty reason
is_invalid (bus_overflow _ subscriber event_type) = is_empty subscriber || is_empty event_type
is_invalid _ = false

unfoldable pub make_event : Event → Result Event
unfolding is_invalid
make_event e = do raise_if (is_invalid e) value_error; ok e

-- `type(event).criticality == "critical"`
unfoldable pub is_critical : Event → Bool
is_critical (domain_check_failed _ _ _ _ _) = true
is_critical (notification_failed _ _ _ _ _) = true
is_critical (whois_rule_invalidated _ _ _ _) = true
is_critical (parse_failed _ _ _ _) = true
is_critical _ = false

-- `event.occurred_at`
unfoldable pub occurred_at : Event → Instant
occurred_at (domain_added t _) = t
occurred_at (domain_removed t _) = t
occurred_at (domain_check_requested t _ _) = t
occurred_at (domain_check_completed t _) = t
occurred_at (domain_check_failed t _ _ _ _) = t
occurred_at (notification_dispatched t _ _) = t
occurred_at (notification_failed t _ _ _ _) = t
occurred_at (whois_rule_learned t _ _ _ _) = t
occurred_at (whois_rule_revalidated t _ _) = t
occurred_at (whois_rule_invalidated t _ _ _) = t
occurred_at (parse_failed t _ _ _) = t
occurred_at (bus_overflow t _ _) = t
