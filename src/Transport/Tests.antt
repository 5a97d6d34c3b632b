-- ===== src/Transport/Tests.antt =====
-- The mux on concrete messages, over the in-memory backend and with toy peers and a toy codec.
use weaveplatform_agent_core.Base.{
  ◌≤◌, true, false, none, some, [], ◌∷◌, eq_bytes, has_prefix, ◌≡◌, refl, arith,
}
use weaveplatform_agent_core.Store.Buckets.{read, keys_of}
use weaveplatform_agent_core.Store.Memory.{
  MemStore, mem_store, mem_store-Implements, mem_step, mem_list, mem_contents, bucket_at,
}
use weaveplatform_agent_core.Transport.{QueuedMessage, Peer, Codec, Mux, max_queued}
use weaveplatform_agent_core.Transport.Keys.{scan_digits, queue_key, scan_key, digits}
use weaveplatform_agent_core.Transport.Queue.{
  queue_namespace, ask, flush, enqueue, seed_next_id, queued, count_up, highest,
}
use weaveplatform_agent_core.Transport.Queue.Flush.{Flushed, flush_loses_nothing}
use weaveplatform_agent_core.Transport.Queue.Cap.{queue_length, queue_keys, enqueue-bounded}
use weaveplatform_agent_core.Transport.Queue.Seed.{next_key_is_free}
use weaveplatform_agent_core.Transport.Inbound.{Inbound, Subs}

-- A message is coded by its peer's number and its kind.
abbrev toy_codec : Codec
toy_codec = record {
  marshal = λ qm. some (qm.peer ∷ qm.kind);
  unmarshal = λ raw. elim raw [
    | [] ↦ none
    | p ∷ k ↦ some (record { module_id = []; peer = p; kind = k; body = [] })
  ];
}

abbrev takes_all : Peer
takes_all = λ log qm. true

abbrev ping : QueuedMessage
ping = record { module_id = []; peer = 1; kind = 7 ∷ []; body = [] }

abbrev two_queued : MemStore
two_queued = record {
  data_of = (queue_namespace, (queue_key 1, 1 ∷ 7 ∷ []) ∷ (queue_key 2, 2 ∷ 8 ∷ []) ∷ []) ∷ [];
}

abbrev restarted : Mux MemStore
restarted = record {
  gateweave = some takes_all;
  hypervisor = none;
  queue = some two_queued;
  max_queued_set = 2;
  next_id = 0;
  seeded = false;
  dropped = 0;
  log = [];
}

flush_loses_nothing_example :
    Flushed mem_store mem_store-Implements toy_codec takes_all 1 two_queued restarted
      (flush mem_store toy_codec takes_all 1 restarted)
flush_loses_nothing_example =
    flush_loses_nothing mem_store mem_store-Implements toy_codec takes_all 1 restarted two_queued
      refl tt

enqueue-bounded_example :
    queue_length (enqueue mem_store toy_codec none restarted ping).queue ≤ max_queued restarted
unfolding queue_length queue_keys max_queued mem_list bucket_at read eq_bytes keys_of has_prefix
    queue_key digits
enqueue-bounded_example = enqueue-bounded toy_codec none restarted ping (omega arith)

next_key_is_free_example :
    mem_contents two_queued queue_namespace
      (queue_key (count_up mem_store (seed_next_id mem_store restarted)).next_id)
    ≡ none
unfolding ask mem_step mem_list bucket_at read eq_bytes keys_of has_prefix queue_key digits
    seed_next_id queued highest scan_key scan_digits
next_key_is_free_example =
    next_key_is_free mem_store mem_store-Implements restarted two_queued two_queued
      (queue_key 1 ∷ queue_key 2 ∷ []) refl refl tt refl (omega arith)

abbrev note : Inbound
note = record { kind = 5 ∷ []; body = [] }

abbrev one_receiver : Subs
one_receiver = (97 ∷ [], record { id = 0; buffer = [] } ∷ []) ∷ []
