-- ===== src/Transport/Queue/Cap.antt =====
-- `enforceCap` of internal/transport/transport.go over the in-memory backend.
use weaveplatform_agent_core.Base.{
  ℕ, zero, suc, ◌-◌, ◌≤◌, Bool, true, not, Option, none, some, List, [], ◌∷◌, ◌++◌, length, take,
  drop, keep, length-keep-le, keep-append, eq_bytes, eq_bytes_iff, eq_bytes_refl, has_prefix, leb,
  if-both, if-true, ◌≡◌, refl, sym, ap, ◌∙◌, subst, arith,
}
use weaveplatform_agent_core.Store.{Bytes, member}
use weaveplatform_agent_core.Store.Buckets.{Bucket, read, erase, keys_of, read-write}
use weaveplatform_agent_core.Store.Memory.{
  MemStore, bucket_of, bucket_at, mem_list, mem_put, mem_delete, mem_delete_in, mem_step, mem_store,
}
use weaveplatform_agent_core.Transport.{Mux, Codec, QueuedMessage, max_queued}
use weaveplatform_agent_core.Transport.Keys.{queue_prefix, queue_key, insert_key, sort_keys}
use weaveplatform_agent_core.Transport.Queue.{
  queue_namespace, ask, queued, delete_all, enforce_cap, enqueue, enqueue_in, enqueue_raw, put_next,
  seed_next_id, seed_in, count_up,
}

keys_of-erase :
    (k : Bytes) (entries : Bucket Bytes)
    → keys_of (erase k entries) ≡ keep (λ j. not (eq_bytes j k)) (keys_of entries)
unfolding keys_of erase
keys_of-erase k [] = refl
keys_of-erase k ((j, v) ∷ entries) = ground (arith, keys_of-erase k entries)

-- The keys of the queue.
unfoldable pub queue_keys : MemStore → List Bytes
queue_keys s = mem_list queue_namespace s queue_prefix

keep_comm : (p q : Bytes → Bool) (ks : List Bytes) → keep p (keep q ks) ≡ keep q (keep p ks)
keep_comm p q [] = refl
keep_comm p q (k ∷ ks) = ground (arith, keep_comm p q ks)

queue_keys-delete :
    (k : Bytes) (s : MemStore)
    → queue_keys (mem_delete queue_namespace s k) ≡ keep (λ j. not (eq_bytes j k)) (queue_keys s)
unfolding queue_keys mem_list mem_delete bucket_at keys_of
queue_keys-delete k s = go (read queue_namespace s.data_of) refl
  where
    go :
        (o : Option (Bucket Bytes))
        → read queue_namespace s.data_of ≡ o
        → mem_list queue_namespace (mem_delete_in queue_namespace s k o) queue_prefix
          ≡ keep
              (λ j. not (eq_bytes j k))
              (keep (λ j. has_prefix j queue_prefix) (keys_of (bucket_of o)))
    go none e = ap (λ o. keep (λ j. has_prefix j queue_prefix) (keys_of (bucket_of o))) e
    go (some entries) e =
        ap (λ o. keep (λ j. has_prefix j queue_prefix) (keys_of (bucket_of o)))
          (read-write queue_namespace queue_namespace (erase k entries) s.data_of
            ∙ if-true {b = eq_bytes queue_namespace queue_namespace} (some (erase k entries))
                (read queue_namespace s.data_of) (eq_bytes_refl queue_namespace))
        ∙ ap (keep (λ j. has_prefix j queue_prefix)) (keys_of-erase k entries)
        ∙ keep_comm (λ j. has_prefix j queue_prefix) (λ j. not (eq_bytes j k)) (keys_of entries)

-- Not among the keys.
abbrev spared : List Bytes → Bytes → Bool
spared ds j = not (member j ds)

spare_none : (ks : List Bytes) → ks ≡ keep (spared []) ks
spare_none [] = refl
spare_none (k ∷ ks) = ap (◌∷◌ k) (spare_none ks)

spare_more :
    (d : Bytes) (ds ks : List Bytes)
    → keep (spared ds) (keep (λ j. not (eq_bytes j d)) ks) ≡ keep (spared (d ∷ ds)) ks
spare_more d ds [] = refl
spare_more d ds (k ∷ ks) = ground (arith, spare_more d ds ks, eq_bytes_iff k d, eq_bytes_iff d k)

queue_keys-delete_all :
    (ds : List Bytes) (s : MemStore)
    → queue_keys (delete_all mem_store ds s) ≡ keep (spared ds) (queue_keys s)
unfolding delete_all ask mem_step
queue_keys-delete_all [] s = spare_none (queue_keys s)
queue_keys-delete_all (d ∷ ds) s =
    queue_keys-delete_all ds (mem_delete queue_namespace s d)
    ∙ ap (keep (spared ds)) (queue_keys-delete d s)
    ∙ spare_more d ds (queue_keys s)

length-keep-insert :
    (p : Bytes → Bool) (k : Bytes) (ks : List Bytes)
    → length (keep p (insert_key k ks)) ≡ length (keep p (k ∷ ks))
unfolding insert_key
length-keep-insert p k [] = refl
length-keep-insert p k (j ∷ js) = ground (arith, length-keep-insert p k js)

length-keep-sort :
    (p : Bytes → Bool) (ks : List Bytes) → length (keep p (sort_keys ks)) ≡ length (keep p ks)
unfolding sort_keys
length-keep-sort p [] = refl
length-keep-sort p (k ∷ ks) =
    ground (arith, length-keep-insert p k (sort_keys ks), length-keep-sort p ks)

length-insert : (k : Bytes) (ks : List Bytes) → length (insert_key k ks) ≡ suc (length ks)
unfolding insert_key
length-insert k [] = refl
length-insert k (j ∷ js) = ground (arith, length-insert k js)

length-sort : (ks : List Bytes) → length (sort_keys ks) ≡ length ks
unfolding sort_keys
length-sort [] = refl
length-sort (k ∷ ks) = omega (arith, length-insert k (sort_keys ks), length-sort ks)

take-drop : (n : ℕ) (ks : List Bytes) → take n ks ++ drop n ks ≡ ks
take-drop zero ks = refl
take-drop (suc n) [] = refl
take-drop (suc n) (k ∷ ks) = ap (◌∷◌ k) (take-drop n ks)

length-drop : (n : ℕ) (ks : List Bytes) → length (drop n ks) ≡ length ks - n
length-drop zero ks = omega arith
length-drop (suc n) [] = omega arith
length-drop (suc n) (k ∷ ks) = omega (arith, length-drop n ks)

-- Of keys that are all among the others, none is spared.
all_gone :
    (ds more : List Bytes)
    → ((j : Bytes) → member j ds ≡ true → member j more ≡ true)
    → keep (spared more) ds ≡ []
all_gone [] more h = refl
all_gone (d ∷ ds) more h =
    ground
      (arith, h d (ground (arith, eq_bytes_refl d)), all_gone ds more (λ j e. h j (ground arith)))

-- What is left when the first keys in order are deleted.
length-spared :
    (n : ℕ) (ks : List Bytes) → length (keep (spared (take n (sort_keys ks))) ks) ≤ length ks - n
length-spared n ks =
    let sorted = sort_keys ks in
    let p = spared (take n sorted) in
    let whole : length (keep p sorted) ≡ length (keep p ks) = length-keep-sort p ks in
    let every : length sorted ≡ length ks = length-sort ks in
    let cut : keep p sorted ≡ keep p (take n sorted) ++ keep p (drop n sorted) =
      ap (keep p) (sym (take-drop n sorted)) ∙ keep-append p (take n sorted) (drop n sorted) in
    let gone : keep p (take n sorted) ≡ [] = all_gone (take n sorted) (take n sorted) (λ j e. e) in
    omega (
      arith,
      ap length (cut ∙ ap (λ xs. xs ++ keep p (drop n sorted)) gone),
      length-keep-le p (drop n sorted),
      length-drop n sorted,
    )

unfoldable pub queue_length : Option MemStore → ℕ
queue_length none = 0
queue_length (some s) = length (queue_keys s)

-- After enforceCap, no more messages are queued than the cap.
enforce_cap-bounded :
    (m : Mux MemStore) (s : MemStore)
    → queue_length (enforce_cap mem_store m s).queue ≤ max_queued m
unfolding queue_length enforce_cap queued ask mem_step queue_keys
enforce_cap-bounded m s =
    if-both (λ (r : Mux MemStore). queue_length r.queue ≤ max_queued m)
      (leb (length (queue_keys s)) (max_queued m)) _ _ (λ under. ground arith)
      (λ over.
        let ks = queue_keys s in
        let n = length ks - max_queued m in
        omega
          (arith, ap length (queue_keys-delete_all (take n (sort_keys ks)) s), length-spared n ks))

seed_in-max_queued :
    (m : Mux MemStore) (o : Option MemStore) → max_queued (seed_in mem_store m o) ≡ max_queued m
unfolding max_queued queued ask mem_step
seed_in-max_queued m none = refl
seed_in-max_queued m (some s) =
    if-both (λ (r : Mux MemStore). max_queued r ≡ max_queued m) m.seeded _ _ (λ e. refl) (λ e. refl)

put_next-bounded :
    (entropy : Option (ℕ → ℕ)) (raw : Bytes) (c : Mux MemStore) (o : Option MemStore)
    → c.queue ≡ o
    → queue_length (put_next mem_store entropy raw c o).queue ≤ max_queued c
unfolding queue_length ask mem_step
put_next-bounded entropy raw c none e =
    subst (λ q. queue_length q ≤ max_queued c) (sym e) (omega arith)
put_next-bounded entropy raw c (some s) e =
    enforce_cap-bounded c (mem_put queue_namespace s (queue_key c.next_id) raw)

-- Over the in-memory backend: if no more messages than the cap are queued, no more are after another
-- is queued, whatever the message and whether or not it can be marshalled; the cap is 10000 where
-- none is set.
pub enqueue-bounded :
    (codec : Codec) (entropy : Option (ℕ → ℕ)) (m : Mux MemStore) (qm : QueuedMessage)
    → queue_length m.queue ≤ max_queued m
    → queue_length (enqueue mem_store codec entropy m qm).queue ≤ max_queued m
unfolding enqueue seed_next_id max_queued
enqueue-bounded codec entropy m qm h = go m.queue (codec.marshal qm)
  where
    raw_bounded :
        (raw : Option Bytes)
        → queue_length (enqueue_raw mem_store entropy m raw).queue ≤ max_queued m
    raw_bounded none = h
    raw_bounded (some raw) =
        let c = count_up mem_store (seed_next_id mem_store m) in
        subst (λ n. queue_length (put_next mem_store entropy raw c c.queue).queue ≤ n)
          (seed_in-max_queued m m.queue) (put_next-bounded entropy raw c c.queue refl)

    go :
        (o : Option MemStore) (raw : Option Bytes)
        → queue_length (enqueue_in mem_store codec entropy m qm o).queue ≤ max_queued m
    go none raw = h
    go (some s) raw = raw_bounded (codec.marshal qm)
