-- ===== src/Store/Memory.antt =====
-- `MemStore` of internal/hostserv/memory.go. A Go map has no order: the model keeps one, and the
-- contract reads the keys of `List` as a set. The lock makes each operation one step.
use weaveplatform_agent_core.Base.{
  Option, none, some, List, [], keep, eq_bytes_iff, has_prefix, ◌≡◌, refl, arith,
}
use weaveplatform_agent_core.Store.{Bytes, Op, get, put, delete, list, Reply, value, done, keys}
use weaveplatform_agent_core.Store.Buckets.{
  Bucket, read, write, erase, keys_of, read-write, read-erase, member-keys_of, member-keep,
}
use weaveplatform_agent_core.Store.Contract.{
  Contents, Backend, Implements, Allowed, carried_out, effect, Answers,
}

pub record MemStore : Type 0 where
  pub data_of : Bucket (Bucket Bytes)

-- m.data[module]; the nil map reads as an empty one
abbrev pub bucket_of : Option (Bucket Bytes) → Bucket Bytes
bucket_of none = []
bucket_of (some b) = b

module _ (m : Bytes) (s : MemStore) where
  unfoldable pub bucket_at : Bucket Bytes
  bucket_at = bucket_of (read m s.data_of)

  unfoldable pub mem_get : Bytes → Option Bytes
  mem_get k = read k bucket_at

  unfoldable pub mem_put : Bytes → Bytes → MemStore
  mem_put k v = record { data_of = write m (write k v bucket_at) s.data_of }

  -- delete on the nil map does nothing
  abbrev pub mem_delete_in : Bytes → Option (Bucket Bytes) → MemStore
  mem_delete_in k none = s
  mem_delete_in k (some b) = record { data_of = write m (erase k b) s.data_of }

  unfoldable pub mem_delete : Bytes → MemStore
  mem_delete k = mem_delete_in k (read m s.data_of)

  unfoldable pub mem_list : Bytes → List Bytes
  mem_list p = keep (λ k. has_prefix k p) (keys_of bucket_at)

unfoldable pub mem_step : Bytes → Op → MemStore → MemStore × Reply
mem_step m (get k) s = (s, value (mem_get m s k))
mem_step m (put k v) s = (mem_put m s k v, done)
mem_step m (delete k) s = (mem_delete m s k, done)
mem_step m (list p) s = (s, keys (mem_list m s p))

unfoldable pub mem_contents : MemStore → Contents
mem_contents s m k = mem_get m s k

abbrev pub mem_store : Backend MemStore
mem_store = record {
  step = λ call. mem_step call.module_id call.op;
  contents = mem_contents;
  Sound = λ s. Unit;
  start = record { data_of = [] };
}

pub mem_get-mem_put :
    (m k v m' k' : Bytes) (s : MemStore)
    → mem_contents (mem_put m s k v) m' k' ≡ effect m (put k v) (mem_contents s) m' k'
unfolding mem_contents mem_get mem_put bucket_at effect
mem_get-mem_put m k v m' k' s = ground (
  arith,
  read-write m m' (write k v (bucket_of (read m s.data_of))) s.data_of,
  read-write k k' v (bucket_of (read m s.data_of)),
  eq_bytes_iff m m',
)

pub mem_get-mem_delete :
    (m k m' k' : Bytes) (s : MemStore)
    → mem_contents (mem_delete m s k) m' k' ≡ effect m (delete k) (mem_contents s) m' k'
unfolding mem_contents mem_get mem_delete bucket_at effect read
mem_get-mem_delete m k m' k' s = go (read m s.data_of) refl
  where
    go :
        (o : Option (Bucket Bytes))
        → read m s.data_of ≡ o
        → mem_contents (mem_delete_in m s k o) m' k' ≡ effect m (delete k) (mem_contents s) m' k'
    go none e = ground (arith, eq_bytes_iff m m')
    go (some b) e =
        ground (arith, read-write m m' (erase k b) s.data_of, read-erase k k' b, eq_bytes_iff m m')

mem_step-Allowed :
    (m : Bytes) (op : Op) (s : MemStore)
    → Allowed (mem_contents s) (mem_contents (mem_step m op s).0) m op (mem_step m op s).1
unfolding mem_step effect Answers mem_contents mem_get mem_list
mem_step-Allowed m (get k) s = carried_out refl (λ m' k'. refl)
mem_step-Allowed m (put k v) s = carried_out refl (λ m' k'. mem_get-mem_put m k v m' k' s)
mem_step-Allowed m (delete k) s = carried_out refl (λ m' k'. mem_get-mem_delete m k m' k' s)
mem_step-Allowed m (list p) s =
    carried_out
      (
        mem_list m s p,
        refl,
        λ k. ground (
          arith,
          member-keep (λ j. has_prefix j p) k (keys_of (bucket_at m s)),
          member-keys_of k (bucket_at m s),
        ),
      )
      (λ m' k'. refl)

-- The in-memory store implements the contract of a module's store: whatever it holds, every call is
-- answered, and changes it, as the map of namespaces and keys does.
pub mem_store-Implements : Implements mem_store
unfolding mem_contents mem_get bucket_at read
mem_store-Implements = record {
  start-Sound = tt;
  start_empty = λ m k. refl;
  step-Sound = λ call s u. tt;
  step-Allowed = λ call s u. mem_step-Allowed call.module_id call.op s;
}
