-- ===== src/Application/ChannelResolver.antt =====
-- `StaticChannelResolver` of application/channel_resolver.py: its dict is an argument.
use domain_watcher.Dict
use domain_watcher.Dict.{Dict, values, contains, get-insert}
use domain_watcher.Monitoring.{ChannelId, MonitoredDomain}
use domain_watcher.Notification.{Channel, make_channel}
use domain_watcher.Prelude.{
  ◌≡◌, refl, true, false, Bool-cases, Option-cases, inl, inr, Option, none, some, List, [], ◌∷◌,
  nat_eq, list_eq,
}
use domain_watcher.Shared.Errors.{Error, Result, ok, raise, key_error, value_error, ◌>>=◌}
use domain_watcher.Shared.Text.{Text, is_empty, strip}

-- what is found in the dict, or `KeyError`
unfoldable pub found : Option Text → Result Text
found none = raise key_error
found (some n) = ok n

-- `_lookup`
unfoldable pub lookup : Dict Text Text → ChannelId → Result Text
unfolding found
lookup notifiers cid = found (Dict.get notifiers cid.value)

-- the loop of `channels_for`
unfoldable pub channels_loop : Dict Text Text → List ChannelId → Result (List Channel)
unfolding lookup make_channel
channels_loop notifiers [] = ok []
channels_loop notifiers (cid ∷ cids) = do
  notifier_id ← lookup notifiers cid
  channel ← make_channel cid notifier_id []
  channels ← channels_loop notifiers cids
  ok (channel ∷ channels)

unfoldable pub channels_for : Dict Text Text → MonitoredDomain → Result (List Channel)
unfolding channels_loop
channels_for notifiers domain = channels_loop notifiers domain.channels

-- the channel of a known id, whose notifier id is not blank
abbrev pub IsChannel : Dict Text Text → ChannelId → Channel → Type 0
IsChannel notifiers cid channel =
    (channel.id ≡ cid)
    × ((Dict.get notifiers cid.value ≡ some channel.notifier_id)
        × ((is_empty (strip channel.notifier_id) ≡ false) × (channel.routing ≡ [])))

-- The channels stand for the ids one by one, in the same order.
abbrev pub AreChannels : Dict Text Text → List ChannelId → List Channel → Type 0
AreChannels notifiers [] [] = Unit
AreChannels notifiers (cid ∷ cids) (c ∷ cs) =
    IsChannel notifiers cid c × AreChannels notifiers cids cs
AreChannels notifiers _ _ = ⊥

-- The first id that is not known, with `KeyError`, or has a blank notifier id, with `ValueError`.
pub data Refused (notifiers : Dict Text Text) : List ChannelId → Error → Type 0 where
  unknown :
      (cid : ChannelId) (cids : List ChannelId)
      → Dict.get notifiers cid.value ≡ none
      → Refused notifiers (cid ∷ cids) key_error
  blank :
      (cid : ChannelId) (cids : List ChannelId) (n : Text)
      → Dict.get notifiers cid.value ≡ some n
      → is_empty (strip n) ≡ true
      → Refused notifiers (cid ∷ cids) value_error
  later :
      (cid : ChannelId) (cids : List ChannelId) (n : Text) (e : Error)
      → Dict.get notifiers cid.value ≡ some n
      → is_empty (strip n) ≡ false
      → Refused notifiers cids e
      → Refused notifiers (cid ∷ cids) e

abbrev pub Resolved : Dict Text Text → List ChannelId → Result (List Channel) → Type 0
Resolved notifiers cids (ok cs) = AreChannels notifiers cids cs
Resolved notifiers cids (raise e) = Refused notifiers cids e

cons-Resolved :
    (notifiers : Dict Text Text) (cid : ChannelId) (cids : List ChannelId) (n : Text)
    (r : Result (List Channel))
    → Dict.get notifiers cid.value ≡ some n
    → is_empty (strip n) ≡ false
    → Resolved notifiers cids r
    → Resolved notifiers
        (cid ∷ cids)
        (r >>= λ cs. ok (record { id = cid; notifier_id = n; routing = [] } ∷ cs))
cons-Resolved notifiers cid cids n (ok cs) e filled h = ((refl, (e, (filled, refl))), h)
cons-Resolved notifiers cid cids n (raise x) e filled h = later cid cids n x e filled h

channels_loop-Resolved :
    (notifiers : Dict Text Text) (cids : List ChannelId)
    → Resolved notifiers cids (channels_loop notifiers cids)
unfolding channels_loop lookup found make_channel
channels_loop-Resolved notifiers [] = tt
channels_loop-Resolved notifiers (cid ∷ cids) = elim (Option-cases (Dict.get notifiers cid.value)) [
  | inl e ↦ rw e (unknown cid cids e)
  | inr (n, e) ↦ rw e (elim (Bool-cases (is_empty (strip n))) [
    | inl empty ↦ rw empty (blank cid cids n e empty)
    | inr filled ↦ rw filled (
        cons-Resolved notifiers cid cids n (channels_loop notifiers cids) e filled
          (channels_loop-Resolved notifiers cids))
  ])
]

-- `channels_for` gives the domain's channels one by one, in their order, each with the notifier id
-- that is known for its id, which is not blank, and no routing; or it raises at the first id that
-- is not known, `KeyError`, or has a blank notifier id, `ValueError`.
pub channels_for-Resolved :
    (notifiers : Dict Text Text) (domain : MonitoredDomain)
    → Resolved notifiers domain.channels (channels_for notifiers domain)
unfolding channels_for
channels_for-Resolved notifiers domain = channels_loop-Resolved notifiers domain.channels
