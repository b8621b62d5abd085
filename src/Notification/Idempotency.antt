-- ===== src/Notification/Idempotency.antt =====
-- `IdempotencyStore` of core/notification/ports.py as an interface with its law, and
-- `MemoryIdempotencyStore` of infrastructure/persistence/memory/idempotency.py.
use domain_watcher.Dict
use domain_watcher.Dict.{Dict, contains-insert}
use domain_watcher.Monitoring.{ChannelId}
use domain_watcher.Prelude.{ℕ, ◌≡◌, Bool, ◌||◌, ◌&&◌, ◌==◌, nat_eq, list_eq, pair_eq, is_some}
use domain_watcher.Shared.DomainName.{DomainName}
use domain_watcher.Shared.Duration.{Duration}
use domain_watcher.Shared.Text.{Text}
use domain_watcher.Shared.Time.{Instant}

-- the 4-tuple
abbrev pub Key : Type 0
Key = Text × (ℕ × (Text × Text))

-- `_key`
unfoldable pub key : DomainName → Duration → Text → ChannelId → Key
key domain threshold cycle_id channel =
    (domain.value, (threshold.seconds, (cycle_id, channel.value)))

pub record IdempotencyStore (S : Type 0) : Type 0 where
  pub already_fired : S → Key → Bool
  pub add : Key → Instant → S → S
  pub fired-add :
      (k : Key) (at : Instant) (s : S) (j : Key)
      → already_fired (add k at s) j ≡ ((k == j) || already_fired s j)

abbrev pub MemoryStore : Type 0
MemoryStore = Dict Key Instant

unfoldable pub memory_already_fired : MemoryStore → Key → Bool
memory_already_fired fired k = is_some (Dict.get fired k)

-- `record`
unfoldable pub memory_record : Key → Instant → MemoryStore → MemoryStore
memory_record k at fired = Dict.insert fired k at

-- After `record` a key has been fired exactly if it is the one recorded or had been before.
pub memory_fired-record :
    (k : Key) (at : Instant) (s : MemoryStore) (j : Key)
    → memory_already_fired (memory_record k at s) j ≡ ((k == j) || memory_already_fired s j)
unfolding memory_already_fired memory_record
memory_fired-record k at s j = contains-insert s k j at

-- The in-memory store keeps the law that the dispatcher relies on.
unfoldable pub memory_idempotency : IdempotencyStore MemoryStore
memory_idempotency = record {
  already_fired = memory_already_fired;
  add = memory_record;
  fired-add = memory_fired-record;
}

-- After `record` for an alert an alert has been fired exactly if it has the domain, the threshold,
-- the cycle and the channel of the recorded one, or had been fired before.
pub memory_fired-key :
    (d e : DomainName) (t u : Duration) (c k : Text) (h i : ChannelId) (at : Instant)
    (s : MemoryStore)
    → memory_already_fired (memory_record (key d t c h) at s) (key e u k i) ≡ (
        (d.value == e.value && (t.seconds == u.seconds && (c == k && h.value == i.value)))
        || memory_already_fired s (key e u k i))
unfolding key
memory_fired-key d e t u c k h i at s = memory_fired-record (key d t c h) at s (key e u k i)
