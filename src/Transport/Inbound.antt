-- ===== src/Transport/Inbound.antt =====
-- Inbound messages in internal/transport/transport.go: `Receive` and `deliver`. A Go channel with a
-- buffer is the list of what it holds, the oldest first; a subscriber is known by its channel's id.
use weaveplatform_agent_core.Base.{
  ℕ, ◌≤◌, Option, none, some, List, [], ◌∷◌, ◌++◌, map, length, length-append, ltb, ◌==◌, eq_bytes,
  eq_bytes_iff, eq_bytes_refl, if◌then◌else◌, if-both, if-true, if-false, Bool-cases, inl, inr, All,
  ◌≡◌, refl, sym, subst, ap, ◌∙◌, arith,
}
use weaveplatform_agent_core.Store.{Bytes}
use weaveplatform_agent_core.Store.Buckets.{Bucket, read, write, read-write}

abbrev pub inbound_buffer : ℕ
inbound_buffer = 64

-- A TransportMessage of PEER_HYPERVISOR.
pub record Inbound : Type 0 where
  pub kind : Bytes
  pub body : Bytes

pub record Receiver : Type 0 where
  pub id : ℕ
  pub buffer : List Inbound

abbrev pub Subs : Type 0
Subs = Bucket (List Receiver)

-- m.subs[module]
abbrev pub receivers_or_none : Option (List Receiver) → List Receiver
receivers_or_none none = []
receivers_or_none (some rs) = rs

unfoldable pub receivers : Bytes → Subs → List Receiver
receivers m subs = receivers_or_none (read m subs)

-- `Receive`, with a new channel.
unfoldable pub receive_on : Bytes → ℕ → Subs → Subs
receive_on m id subs = write m (receivers m subs ++ (record { id = id; buffer = [] } ∷ [])) subs

-- The first receiver with the channel is taken out, when its context ends.
unfoldable pub without_first : ℕ → List Receiver → List Receiver
without_first id [] = []
without_first id (r ∷ rs) = let rest = without_first id rs in if r.id == id then rs else r ∷ rest

unfoldable pub stop_receiving : Bytes → ℕ → Subs → Subs
stop_receiving m id subs = write m (without_first id (receivers m subs)) subs

-- The send that does not block.
unfoldable pub push : Inbound → Receiver → Receiver
push msg r =
    if ltb (length r.buffer) inbound_buffer
    then record { id = r.id; buffer = r.buffer ++ (msg ∷ []) }
    else r

abbrev pub fan_out : Bytes → Inbound → Subs → List Receiver → Subs
fan_out m msg subs [] = subs
fan_out m msg subs (r ∷ rs) = write m (map (push msg) (r ∷ rs)) subs

unfoldable pub deliver_inbound : Bytes → Inbound → Subs → Subs
deliver_inbound m msg subs = fan_out m msg subs (receivers m subs)

-- No buffer holds more than it can.
unfoldable pub IsBounded : List Receiver → Type 0
IsBounded rs = All (λ (r : Receiver). length r.buffer ≤ inbound_buffer) rs

push-IsBounded : (msg : Inbound) (rs : List Receiver) → IsBounded rs → IsBounded (map (push msg) rs)
unfolding IsBounded push
push-IsBounded msg [] h = tt
push-IsBounded msg (r ∷ rs) h = (
  if-both (λ (q : Receiver). length q.buffer ≤ inbound_buffer)
      (ltb (length r.buffer) inbound_buffer) _ _
      (λ room. grind (arith, length-append r.buffer (msg ∷ []))) (λ full. h.0),
  push-IsBounded msg rs h.1,
)

-- A delivery to a module offers the message to each of its receivers, and to those of no other module;
-- where no buffer of the module is over its bound, none is after it.
pub deliver_inbound-receivers :
    (m m' : Bytes) (msg : Inbound) (subs : Subs)
    → IsBounded (receivers m subs)
    → (receivers m' (deliver_inbound m msg subs)
        ≡ (if eq_bytes m m' then map (push msg) (receivers m subs) else receivers m' subs))
      × IsBounded (receivers m (deliver_inbound m msg subs))
unfolding deliver_inbound receivers
deliver_inbound-receivers m m' msg subs h = go (receivers m subs) refl h
  where
    at :
        (rs : List Receiver)
        → receivers m subs ≡ rs
        → (j : Bytes)
        → receivers j (fan_out m msg subs rs)
          ≡ (if eq_bytes m j then map (push msg) rs else receivers j subs)
    at [] e j = elim (Bool-cases (eq_bytes m j)) [
      | inl same ↦
          ap (λ k. receivers k subs) (sym ((eq_bytes_iff m j).0 same)) ∙ e ∙ sym (if-true _ _ same)
      | inr other ↦ sym (if-false _ _ other)
    ]
    at (r ∷ rs) e j = ground (arith, read-write m j (map (push msg) (r ∷ rs)) subs)

    go :
        (rs : List Receiver)
        → receivers m subs ≡ rs
        → IsBounded rs
        → (receivers m' (fan_out m msg subs rs)
            ≡ (if eq_bytes m m' then map (push msg) rs else receivers m' subs))
          × IsBounded (receivers m (fan_out m msg subs rs))
    go rs e bounded = (
      at rs e m',
      subst IsBounded (sym (at rs e m ∙ if-true {b = eq_bytes m m} _ _ (eq_bytes_refl m)))
          (push-IsBounded msg rs bounded),
    )
