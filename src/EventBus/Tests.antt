-- ===== src/EventBus/Tests.antt =====
-- Subscriptions and feeds on concrete topics.
use weaveplatform_agent_core.Base.{
  ℕ, true, false, none, some, List, [], ◌∷◌, codes, eq_bytes, has_prefix, ◌≡◌, refl, arith, All,
}
use weaveplatform_agent_core.EventBus.{
  Bytes, Event, Subscription, Bus, cut_star, covers, matches, publish, subscribe, topic_allowed,
  subscribe_checked, count, full_topic,
}
use weaveplatform_agent_core.EventBus.Authorize.{IsPlain, subscribe_checked_covered}
use weaveplatform_agent_core.EventBus.Feed.{offered, taken, live, Accounts, live-Accounts}

abbrev empty_bus : Bus
empty_bus = record { subs = []; seq = [] }

abbrev declared : List Bytes
declared = codes "m.*" ∷ []

-- The second event of a topic has the sequence 2.
numbered :
    count
      (codes "m.a")
      (publish (publish empty_bus (codes "m") (codes "a") [] 0) (codes "m") (codes "a") [] 1).seq
    ≡ 2
unfolding publish count full_topic eq_bytes
numbered = refl

narrower_allowed :
    subscribe_checked empty_bus declared 0 (codes "m.a*" ∷ [])
    ≡ some (subscribe empty_bus 0 (codes "m.a*" ∷ []))
unfolding subscribe_checked topic_allowed covers cut_star has_prefix eq_bytes
narrower_allowed = refl

star_refused : subscribe_checked empty_bus declared 0 (codes "*" ∷ []) ≡ none
unfolding subscribe_checked topic_allowed covers cut_star has_prefix eq_bytes
star_refused = refl

-- A declared glob that ends in two stars is the exception: the glob with one is let through, and matches
-- what the declared one does not.
two_stars :
    (topic_allowed (codes "m*") (codes "m**" ∷ []) ≡ true)
    × (covers (codes "m*") (codes "mx") ≡ true)
    × (covers (codes "m**") (codes "mx") ≡ false)
unfolding topic_allowed covers cut_star has_prefix eq_bytes
two_stars = (refl, refl, refl)

declared-IsPlain : All IsPlain declared
unfolding cut_star
declared-IsPlain = (λ pre e. ground arith, tt)

asked : matches (codes "m.a*" ∷ []) (codes "m.ab") ≡ true
unfolding matches covers cut_star has_prefix eq_bytes
asked = refl

subscribe_checked_covered_example :
    (subscribe empty_bus 0 (codes "m.a*" ∷ []) ≡ subscribe empty_bus 0 (codes "m.a*" ∷ []))
    × (matches declared (codes "m.ab") ≡ true)
subscribe_checked_covered_example =
    subscribe_checked_covered empty_bus (subscribe empty_bus 0 (codes "m.a*" ∷ [])) declared
      (codes "m.a*" ∷ []) 0 (codes "m.ab") declared-IsPlain narrower_allowed asked

abbrev event : ℕ → Event
event n = record { topic = codes "m.a"; body = []; published_at = 0; sequence = n }

abbrev subscription : Subscription
subscription = record { id = 0; topics = declared; queue = []; dropped = 0 }

live-Accounts_example :
    Accounts subscription declared
      (offered (event 1) ∷ taken ∷ offered (event 2) ∷ [])
      (live subscription (offered (event 1) ∷ taken ∷ offered (event 2) ∷ []))
live-Accounts_example =
    live-Accounts subscription (offered (event 1) ∷ taken ∷ offered (event 2) ∷ []) (omega arith)
      (omega arith)
