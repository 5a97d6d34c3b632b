-- ===== src/EventBus.antt =====
-- internal/eventbus/bus.go, and the authorization in front of it in internal/hostserv/hostserv.go
-- (`topicAllowed`, `eventsServer.Publish`, `eventsServer.Subscribe`). A topic is its bytes. The
-- subscribers are a list: Go ranges over a map of them, and each only sees its own feed.
pub mod Authorize
pub mod Feed
mod Tests
use weaveplatform_agent_core.Base.{
  ℕ, suc, ◌+◌, ◌%◌, ◌^◌, Bool, true, false, ◌&&◌, ◌||◌, Option, none, some, List, [], ◌∷◌, ◌++◌,
  map, length, any, all, ltb, ◌==◌, eq_bytes, has_prefix, if◌then◌else◌,
}

abbrev pub Bytes : Type 0
Bytes = List ℕ

pub record Event : Type 0 where
  pub topic : Bytes
  pub body : Bytes
  pub published_at : ℕ
  pub sequence : ℕ

-- `queue` is what the buffered channel holds.
pub record Subscription : Type 0 where
  pub id : ℕ
  pub topics : List Bytes
  pub queue : List Event
  pub dropped : ℕ

pub record Bus : Type 0 where
  pub subs : List Subscription
  pub seq : List (Bytes × ℕ)

abbrev pub buffer_size : ℕ
buffer_size = 64

-- strings.CutSuffix(p, "*")
unfoldable pub cut_star : Bytes → Option Bytes
cut_star [] = none
cut_star (c ∷ s) =
    let rest = cut_star s in
    elim rest [
      | some pre ↦ some (c ∷ pre)
      | none ↦ if length s == 0 && c == 42 then some [] else none
    ]

-- One pattern of `matches`, which is also one entry of `topicAllowed`.
unfoldable pub covers : Bytes → Bytes → Bool
unfolding cut_star
covers p topic =
    eq_bytes p topic || (elim (cut_star p) [ none ↦ false | some pre ↦ has_prefix topic pre ])

unfoldable pub matches : List Bytes → Bytes → Bool
matches topics topic = any (λ p. covers p topic) topics

-- By whether the event is asked for, and whether the channel has room (the `select`): it is queued, or
-- lost and counted.
abbrev pub place : Event → Subscription → Bool → Bool → Subscription
place ev s false room = s
place ev s true true = record s { queue = s.queue ++ (ev ∷ []) }
place ev s true false = record s { dropped = suc s.dropped % 2 ^ 64 }

unfoldable pub offer : Event → Subscription → Subscription
unfolding matches
offer ev s = place ev s (matches s.topics ev.topic) (ltb (length s.queue) buffer_size)

-- b.seq[topic], 0 where it is absent.
unfoldable pub count : Bytes → List (Bytes × ℕ) → ℕ
count t [] = 0
count t ((u, n) ∷ m) = if eq_bytes u t then n else count t m

unfoldable pub set_count : Bytes → ℕ → List (Bytes × ℕ) → List (Bytes × ℕ)
set_count t k [] = (t, k) ∷ []
set_count t k ((u, n) ∷ m) = if eq_bytes u t then (t, k) ∷ m else (u, n) ∷ set_count t k m

-- from + "." + topic
unfoldable pub full_topic : Bytes → Bytes → Bytes
full_topic from topic = from ++ (46 ∷ topic)

abbrev pub event_of : Bus → Bytes → Bytes → ℕ → Event
event_of b topic body now = record {
  topic = topic;
  body = body;
  published_at = now;
  sequence = suc (count topic b.seq) % 2 ^ 64;
}

abbrev pub deliver : Bus → Event → Bus
deliver b ev = record { subs = map (offer ev) b.subs; seq = set_count ev.topic ev.sequence b.seq }

unfoldable pub publish : Bus → Bytes → Bytes → Bytes → ℕ → Bus
unfolding full_topic count set_count offer
publish b from topic body now = deliver b (event_of b (full_topic from topic) body now)

unfoldable pub subscribe : Bus → ℕ → List Bytes → Bus
subscribe b id topics = record b {
  subs = record { id = id; topics = topics; queue = []; dropped = 0 } ∷ b.subs;
}

unfoldable pub close : ℕ → List Subscription → List Subscription
close id [] = []
close id (s ∷ subs) = let rest = close id subs in if s.id == id then rest else s ∷ rest

abbrev pub take_from : Subscription → List Event → Option Event × Subscription
take_from s [] = (none, s)
take_from s (ev ∷ rest) = (some ev, record s { queue = rest })

-- A receive from the feed: the oldest event, `none` where the feed would block.
unfoldable pub receive : Subscription → Option Event × Subscription
receive s = take_from s s.queue

-- `topicAllowed`
unfoldable pub topic_allowed : Bytes → List Bytes → Bool
unfolding covers
topic_allowed request allow = any (λ a. covers a request) allow

-- `eventsServer.Subscribe`: `none` is PermissionDenied.
unfoldable pub subscribe_checked : Bus → List Bytes → ℕ → List Bytes → Option Bus
unfolding topic_allowed subscribe
subscribe_checked b allow id topics =
    if all (λ t. topic_allowed t allow) topics then some (subscribe b id topics) else none
