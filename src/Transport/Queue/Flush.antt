-- ===== src/Transport/Queue/Flush.antt =====
-- What `flush` of internal/transport/transport.go does to the messages in the queue.
use weaveplatform_agent_core.Base.{
  ℕ, false, Option, none, some, List, [], ◌∷◌, ◌++◌, subst, ◌==◌, if-both, ◌≡◌, inl, inr, refl, sym,
  ap, ◌∙◌, arith,
}
use weaveplatform_agent_core.Store.{Bytes, get, delete, list, Reply, value, done, keys, error}
use weaveplatform_agent_core.Store.Contract.{Allowed, Backend, Implements}
use weaveplatform_agent_core.Transport.{QueuedMessage, Attempt, Peer, Codec, Mux}
use weaveplatform_agent_core.Transport.Keys.{queue_prefix, sort_keys}
use weaveplatform_agent_core.Transport.Queue.{
  queue_namespace, ask, queued, keys_or_error, Drain, offer_message, drain_decoded, drain_value,
  drain_key, drain_keys, flush_keys, flush_in, flush,
}
use weaveplatform_agent_core.Transport.Queue.Account.{
  Taken, here, stored, Accounted, kept, Safe, ask-Sound, ask-Allowed, get_leaves, list_leaves,
  delete_leaves, got, unchanged, grown, deleted-Taken, deleted_broken,
}

module _ {S : Type 0} (b : Backend S) (i : Implements b) (codec : Codec) (p : Peer) (peer : ℕ) where
  module _ (past : List Attempt) (s : S) where
    offer-Safe :
        (k raw : Bytes) (qm : QueuedMessage) (d : Drain b)
        → stored b i codec p peer d.store k ≡ some raw
        → codec.unmarshal raw ≡ some qm
        → qm.peer ≡ peer
        → Safe b i codec p peer s d
        → Safe b i codec p peer s (offer_message b codec p peer past k qm d)
    offer-Safe k raw qm d e g h safe =
        if-both (Safe b i codec p peer s) (p (d.tried ++ past) qm) _ _
          (λ ok. record {
            store-Sound = ask-Sound b i codec p peer (delete k) d.store safe.store-Sound;
            accounted = λ j.
                let before =
                  grown b i codec p peer (stored b i codec p peer s j) d.tried
                    (record { message = qm; accepted = p (d.tried ++ past) qm })
                    (stored b i codec p peer d.store j) (safe.accounted j) in
                elim (delete_leaves b i codec p peer k (b.contents d.store)
                  (b.contents (ask b none (delete k) d.store).0) (ask b none (delete k) d.store).1 j
                  (ask-Allowed b i codec p peer (delete k) d.store safe.store-Sound)) [
                    | inl same ↦
                        deleted-Taken b i codec p peer (stored b i codec p peer s j) _
                          (stored b i codec p peer d.store j) _ raw qm
                          (ap (stored b i codec p peer d.store) (sym same) ∙ e) g h
                          (subst (λ v. Taken qm (record { message = qm; accepted = v } ∷ d.tried))
                            (sym ok) here)
                          before
                    | inr left ↦
                        unchanged b i codec p peer (stored b i codec p peer s j) _
                          (stored b i codec p peer d.store j) _ left before
                  ];
          })
          (λ failed. record {
            store-Sound = safe.store-Sound;
            accounted = λ j.
                grown b i codec p peer (stored b i codec p peer s j) d.tried _
                  (stored b i codec p peer d.store j) (safe.accounted j);
          })

    broken-Safe :
        (k raw : Bytes) (d : Drain b)
        → stored b i codec p peer d.store k ≡ some raw
        → codec.unmarshal raw ≡ none
        → Safe b i codec p peer s d
        → Safe b i codec p peer s (drain_decoded b codec p peer past k d none)
    broken-Safe k raw d e g safe = record {
      store-Sound = ask-Sound b i codec p peer (delete k) d.store safe.store-Sound;
      accounted = λ j.
          elim (delete_leaves b i codec p peer k (b.contents d.store)
            (b.contents (ask b none (delete k) d.store).0) (ask b none (delete k) d.store).1 j
            (ask-Allowed b i codec p peer (delete k) d.store safe.store-Sound)) [
              | inl same ↦
                  deleted_broken b i codec p peer (stored b i codec p peer s j) _
                    (stored b i codec p peer d.store j) _ raw
                    (ap (stored b i codec p peer d.store) (sym same) ∙ e) g (safe.accounted j)
              | inr left ↦
                  unchanged b i codec p peer (stored b i codec p peer s j) _
                    (stored b i codec p peer d.store j) _ left (safe.accounted j)
            ];
    }

    decoded-Safe :
        (k raw : Bytes) (d : Drain b) (o : Option QueuedMessage)
        → stored b i codec p peer d.store k ≡ some raw
        → codec.unmarshal raw ≡ o
        → Safe b i codec p peer s d
        → Safe b i codec p peer s (drain_decoded b codec p peer past k d o)
    decoded-Safe k raw d none e g safe = broken-Safe k raw d e g safe
    decoded-Safe k raw d (some qm) e g safe =
        if-both (Safe b i codec p peer s) (qm.peer == peer) _ _
          (λ same. offer-Safe k raw qm d e g (ground arith) safe) (λ other. safe)

    -- After a read, which changes nothing.
    read-Safe :
        (k : Bytes) (d : Drain b)
        → Safe b i codec p peer s d
        → Safe b i codec p peer s (record d { store = (ask b none (get k) d.store).0 })
    read-Safe k d safe = record {
      store-Sound = ask-Sound b i codec p peer (get k) d.store safe.store-Sound;
      accounted = λ j.
          unchanged b i codec p peer (stored b i codec p peer s j) d.tried
            (stored b i codec p peer d.store j) _
            (get_leaves b i codec p peer k (b.contents d.store)
              (b.contents (ask b none (get k) d.store).0) (ask b none (get k) d.store).1
              queue_namespace j (ask-Allowed b i codec p peer (get k) d.store safe.store-Sound))
            (safe.accounted j);
    }

    drain_key-Safe :
        (k : Bytes) (d : Drain b)
        → Safe b i codec p peer s d
        → Safe b i codec p peer s (drain_key b codec p peer past k d)
    unfolding drain_key
    drain_key-Safe k d safe = go (ask b none (get k) d.store).1 refl
      where
        after : S
        after = (ask b none (get k) d.store).0

        go :
            (r : Reply)
            → (ask b none (get k) d.store).1 ≡ r
            → Safe b i codec p peer s
                (drain_value b codec p peer past k (record d { store = after }) r)
        go (value none) e = read-Safe k d safe
        go (value (some raw)) e =
            decoded-Safe k raw (record d { store = after }) (codec.unmarshal raw)
              (get_leaves b i codec p peer k (b.contents d.store) (b.contents after)
                  (ask b none (get k) d.store).1 queue_namespace k
                  (ask-Allowed b i codec p peer (get k) d.store safe.store-Sound)
                ∙ got b i codec p peer k (b.contents d.store) (b.contents after) raw (
                    subst
                      (λ r.
                        Allowed (b.contents d.store) (b.contents after) queue_namespace (get k) r)
                      e (ask-Allowed b i codec p peer (get k) d.store safe.store-Sound)))
              refl (read-Safe k d safe)
        go done e = read-Safe k d safe
        go (keys ks) e = read-Safe k d safe
        go (error why) e = read-Safe k d safe

    drain_keys-Safe :
        (ks : List Bytes) (d : Drain b)
        → Safe b i codec p peer s d
        → Safe b i codec p peer s (drain_keys b codec p peer past ks d)
    unfolding drain_keys
    drain_keys-Safe [] d safe = safe
    drain_keys-Safe (k ∷ ks) d safe =
        if-both (Safe b i codec p peer s) (drain_key b codec p peer past k d).stopped _ _
          (λ stop. drain_key-Safe k d safe)
          (λ go_on.
            drain_keys-Safe ks (drain_key b codec p peer past k d) (drain_key-Safe k d safe))

  -- What flush leaves: the queue's backend, and what it tried.
  pub record Flushed (s : S) (m after : Mux S) : Type 0 where
    pub store : S
    pub tried : List Attempt
    pub queue_after : after.queue ≡ some store
    pub log_after : after.log ≡ tried ++ m.log
    pub store-Sound : b.Sound store
    pub accounted :
        (k : Bytes)
        → Accounted b i codec p peer
            (stored b i codec p peer s k)
            tried
            (stored b i codec p peer store k)

  -- With a queue on a backend that implements the store's contract, in a sound state, flush leaves the
  -- backend sound and loses no message: each is still queued as it was, or its peer, to which it is
  -- addressed, has taken it in this flush, or it does not decode. This holds whichever sends and
  -- whichever calls of the backend fail.
  pub flush_loses_nothing :
      (m : Mux S) (s : S) → m.queue ≡ some s → b.Sound s → Flushed s m (flush b codec p peer m)
  unfolding flush queued
  flush_loses_nothing m s q sound =
      subst (λ o. Flushed s m (flush_in b codec p peer m o)) (sym q)
        (go (ask b none (list queue_prefix) s).1 refl)
    where
      listed : S
      listed = (ask b none (list queue_prefix) s).0

      begun :
          Safe b i codec p peer s (record { store = listed; lost = 0; tried = []; stopped = false })
      begun = record {
        store-Sound = ask-Sound b i codec p peer (list queue_prefix) s sound;
        accounted = λ k. kept (
            list_leaves b i codec p peer queue_prefix (b.contents s) (b.contents listed)
              (ask b none (list queue_prefix) s).1 queue_namespace k
              (ask-Allowed b i codec p peer (list queue_prefix) s sound));
      }

      nothing : Flushed s m (record m { queue = some listed })
      nothing = record {
        store = listed;
        tried = [];
        queue_after = refl;
        log_after = refl;
        store-Sound = begun.store-Sound;
        accounted = begun.accounted;
      }

      drained : (ks : List Bytes) → Flushed s m (flush_keys b codec p peer m (listed, some ks))
      drained ks =
          let safe = drain_keys-Safe m.log s (sort_keys ks) _ begun in
          record {
            store = _;
            tried = _;
            queue_after = refl;
            log_after = refl;
            store-Sound = safe.store-Sound;
            accounted = safe.accounted;
          }

      go :
          (r : Reply)
          → (ask b none (list queue_prefix) s).1 ≡ r
          → Flushed s m (flush_keys b codec p peer m (listed, keys_or_error b r))
      go (value v) e = nothing
      go done e = nothing
      go (keys ks) e = drained ks
      go (error why) e = nothing
