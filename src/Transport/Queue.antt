-- ===== src/Transport/Queue.antt =====
-- The offline queue of internal/transport/transport.go: `seedNextIDLocked`, `enqueue`, `enforceCap`,
-- `flush`, and `Send` and `Flush` over them. Each runs as one step; flushMu makes flush one.
pub mod Account
pub mod Flush
pub mod Cap
pub mod Seed
use weaveplatform_agent_core.Base.{
  ℕ, suc, ◌+◌, ◌-◌, ◌%◌, ◌^◌, String, Bool, true, false, not, ◌||◌, Option, none, some, List, [],
  ◌∷◌, ◌++◌, length, take, codes, ltb, leb, ◌==◌, if◌then◌else◌,
}
use weaveplatform_agent_core.Store.{
  Bytes, Op, get, put, delete, list, Call, Reply, value, done, keys, error,
}
use weaveplatform_agent_core.Store.Contract.{Backend}
use weaveplatform_agent_core.Transport.{
  hypervisor_peer, QueuedMessage, Attempt, Peer, Codec, Mux, max_queued,
}
use weaveplatform_agent_core.Transport.Keys.{queue_prefix, queue_key, scan_key, sort_keys}

abbrev pub queue_namespace : Bytes
queue_namespace = codes "core.transport"

module _ {S : Type 0} (b : Backend S) where
  -- A call of the backend in the queue's namespace, under context.Background().
  unfoldable pub ask : Option (ℕ → ℕ) → Op → S → S × Reply
  ask entropy op s =
      b.step (record { ended = none; entropy = entropy; module_id = queue_namespace; op = op }) s

  -- The keys of the queue; `none` is an error.
  abbrev pub keys_or_error : Reply → Option (List Bytes)
  keys_or_error (value v) = none
  keys_or_error done = none
  keys_or_error (keys ks) = some ks
  keys_or_error (error why) = none

  unfoldable pub queued : S → S × Option (List Bytes)
  queued s = let r = ask none (list queue_prefix) s in (r.0, keys_or_error r.1)

  unfoldable pub highest : ℕ → List Bytes → ℕ
  highest top [] = top
  highest top (k ∷ ks) =
      highest (elim (scan_key k) [ none ↦ top | some n ↦ if ltb top n then n else top ]) ks

  abbrev pub seeded_from : Mux S → S × Option (List Bytes) → Mux S
  seeded_from m (s, none) = record m { queue = some s; seeded = true }
  seeded_from m (s, some ks) = record m {
    queue = some s;
    seeded = true;
    next_id = highest m.next_id ks;
  }

  abbrev pub seed_in : Mux S → Option S → Mux S
  seed_in m none = record m { seeded = true }
  seed_in m (some s) = if m.seeded then record m { seeded = true } else seeded_from m (queued s)

  unfoldable pub seed_next_id : Mux S → Mux S
  seed_next_id m = seed_in m m.queue

  -- Each delete's error is ignored.
  unfoldable pub delete_all : List Bytes → S → S
  delete_all [] s = s
  delete_all (k ∷ ks) s = delete_all ks (ask none (delete k) s).0

  abbrev pub cap_keys : Mux S → S × Option (List Bytes) → Mux S
  cap_keys m (s, none) = record m { queue = some s }
  cap_keys m (s, some ks) =
      let over = length ks - max_queued m in
      if leb (length ks) (max_queued m) then record m { queue = some s } else record m {
        queue = some (delete_all (take over (sort_keys ks)) s);
        dropped = (m.dropped + over) % 2 ^ 64;
      }

  unfoldable pub enforce_cap : Mux S → S → Mux S
  enforce_cap m s = cap_keys m (queued s)

  abbrev pub after_put : Mux S → S × Reply → Mux S
  after_put m (s, error why) = record m { queue = some s }
  after_put m (s, value v) = enforce_cap m s
  after_put m (s, done) = enforce_cap m s
  after_put m (s, keys ks) = enforce_cap m s

  abbrev pub put_next : Option (ℕ → ℕ) → Bytes → Mux S → Option S → Mux S
  put_next entropy raw m none = m
  put_next entropy raw m (some s) = after_put m (ask entropy (put (queue_key m.next_id) raw) s)

  abbrev pub count_up : Mux S → Mux S
  count_up m = record m { next_id = (m.next_id + 1) % 2 ^ 64 }

  abbrev pub enqueue_raw : Option (ℕ → ℕ) → Mux S → Option Bytes → Mux S
  enqueue_raw entropy m none = m
  enqueue_raw entropy m (some raw) =
      let counted = count_up (seed_next_id m) in put_next entropy raw counted counted.queue

  abbrev pub enqueue_in : Codec → Option (ℕ → ℕ) → Mux S → QueuedMessage → Option S → Mux S
  enqueue_in codec entropy m qm none = m
  enqueue_in codec entropy m qm (some s) = enqueue_raw entropy m (codec.marshal qm)

  unfoldable pub enqueue : Codec → Option (ℕ → ℕ) → Mux S → QueuedMessage → Mux S
  enqueue codec entropy m qm = enqueue_in codec entropy m qm m.queue

  -- What the loop of flush changes: the store, what it dropped, what it tried on the peer, the latest
  -- first, and whether it returned.
  pub record Drain : Type 0 where
    pub store : S
    pub lost : ℕ
    pub tried : List Attempt
    pub stopped : Bool

  -- `past` is what was tried before.
  module _ (codec : Codec) (p : Peer) (peer : ℕ) (past : List Attempt) where
    abbrev pub offer_message : Bytes → QueuedMessage → Drain → Drain
    offer_message key qm d =
        let ok = p (d.tried ++ past) qm in
        let tried' = record { message = qm; accepted = ok } ∷ d.tried in
        if ok
        then record d { store = (ask none (delete key) d.store).0; tried = tried' }
        else record d { tried = tried'; stopped = true }

    abbrev pub drain_decoded : Bytes → Drain → Option QueuedMessage → Drain
    drain_decoded key d none = record d {
      store = (ask none (delete key) d.store).0;
      lost = suc d.lost;
    }
    drain_decoded key d (some qm) = if qm.peer == peer then offer_message key qm d else d

    abbrev pub drain_value : Bytes → Drain → Reply → Drain
    drain_value key d (value none) = d
    drain_value key d (value (some raw)) = drain_decoded key d (codec.unmarshal raw)
    drain_value key d done = d
    drain_value key d (keys ks) = d
    drain_value key d (error why) = d

    unfoldable pub drain_key : Bytes → Drain → Drain
    drain_key key d =
        let r = ask none (get key) d.store in drain_value key (record d { store = r.0 }) r.1

    unfoldable pub drain_keys : List Bytes → Drain → Drain
    drain_keys [] d = d
    drain_keys (k ∷ ks) d =
        let after = drain_key k d in
        let rest = drain_keys ks after in if after.stopped then after else rest

  module _ (codec : Codec) (p : Peer) (peer : ℕ) where
    abbrev pub flushed : Mux S → Drain → Mux S
    flushed m d = record m {
      queue = some d.store;
      dropped = (m.dropped + d.lost) % 2 ^ 64;
      log = d.tried ++ m.log;
    }

    abbrev pub flush_keys : Mux S → S × Option (List Bytes) → Mux S
    flush_keys m (s, none) = record m { queue = some s }
    flush_keys m (s, some ks) = flushed m (
        drain_keys codec p peer m.log (sort_keys ks)
          (record { store = s; lost = 0; tried = []; stopped = false }))

    abbrev pub flush_in : Mux S → Option S → Mux S
    flush_in m none = m
    flush_in m (some s) = flush_keys m (queued s)

    unfoldable pub flush : Mux S → Mux S
    flush m = flush_in m m.queue

  unfoldable pub peer_for : Mux S → ℕ → Option Peer
  peer_for m peer = if peer == hypervisor_peer then m.hypervisor else m.gateweave

  abbrev pub flush_peer : Codec → ℕ → Mux S → Option Peer → Mux S
  flush_peer codec peer m none = m
  flush_peer codec peer m (some p) = flush codec p peer m

  -- `Flush`
  unfoldable pub flush_now : Codec → ℕ → Mux S → Mux S
  flush_now codec peer m = flush_peer codec peer m (peer_for m peer)

  -- What Send returns: delivered, queued (false and no error), or ErrUnavailable.
  pub data Sent : Type 0 where
    delivered : Sent
    not_delivered : Sent
    unavailable : Sent

  abbrev pub offline : Codec → Option (ℕ → ℕ) → Bool → QueuedMessage → Mux S → Mux S × Sent
  offline codec entropy queue_offline qm m =
      if queue_offline then (enqueue codec entropy m qm, not_delivered) else (m, unavailable)

  abbrev pub send_to :
      Codec → Option (ℕ → ℕ) → Bool → QueuedMessage → Mux S → Option Peer → Mux S × Sent
  send_to codec entropy queue_offline qm m none = offline codec entropy queue_offline qm m
  send_to codec entropy queue_offline qm m (some p) =
      let ok = p m.log qm in
      let tried = record m { log = record { message = qm; accepted = ok } ∷ m.log } in
      if ok
      then (flush codec p qm.peer tried, delivered)
      else offline codec entropy queue_offline qm tried

  -- `Send` of the message to its peer.
  unfoldable pub mux_send : Codec → Option (ℕ → ℕ) → Bool → QueuedMessage → Mux S → Mux S × Sent
  mux_send codec entropy queue_offline qm m =
      send_to codec entropy queue_offline qm m (peer_for m qm.peer)
