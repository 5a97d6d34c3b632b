-- ===== src/Transport/Queue/Seed.antt =====
-- `seedNextIDLocked` of internal/transport/transport.go: the counter after a restart.
use weaveplatform_agent_core.Base.{
  ℕ, ◌+◌, ◌^◌, ◌≤◌, ◌<◌, true, false, ◌&&◌, Option, none, some, List, [], ◌∷◌, ltb, has_prefix,
  eq_bytes, eq_bytes_iff, if◌then◌else◌, if-false, ◌≡◌, refl, sym, ap, ◌∙◌, subst, arith,
  Bool-cases, Option-cases, inl, inr,
}
use weaveplatform_agent_core.Store.{Bytes, member, list, Reply, keys}
use weaveplatform_agent_core.Store.Buckets.{is_some}
use weaveplatform_agent_core.Store.Contract.{
  Contents, Answers, Allowed, carried_out, refused, Backend, Implements,
}
use weaveplatform_agent_core.Transport.{Mux}
use weaveplatform_agent_core.Transport.Keys.{queue_prefix, queue_key, scan_key}
use weaveplatform_agent_core.Transport.Keys.Order.{scan_key-queue_key}
use weaveplatform_agent_core.Transport.Queue.{
  queue_namespace, ask, queued, keys_or_error, highest, seeded_from, seed_in, seed_next_id,
  count_up,
}

module _ {S : Type 0} (b : Backend S) where
  abbrev next_top : ℕ → Option ℕ → ℕ
  next_top top none = top
  next_top top (some n) = if ltb top n then n else top

  highest-step :
      (top : ℕ) (k : Bytes) (ks : List Bytes)
      → highest b top (k ∷ ks) ≡ highest b (next_top top (scan_key k)) ks
  unfolding highest
  highest-step top k ks = ap (λ t. highest b t ks) (go (scan_key k))
    where
      go :
          (o : Option ℕ)
          → (elim o [ none ↦ top | some n ↦ if ltb top n then n else top ]) ≡ next_top top o
      go none = refl
      go (some n) = refl

  next_top-le : (top : ℕ) (o : Option ℕ) → top ≤ next_top top o
  next_top-le top none = omega arith
  next_top-le top (some n) = ground arith

  highest-le : (top : ℕ) (ks : List Bytes) → top ≤ highest b top ks
  unfolding highest
  highest-le top [] = omega arith
  highest-le top (k ∷ ks) = omega (
    arith,
    highest-step top k ks,
    next_top-le top (scan_key k),
    highest-le (next_top top (scan_key k)) ks,
  )

  -- No scanned key is above it.
  highest-bounds :
      (top : ℕ) (ks : List Bytes) (j : Bytes) (n : ℕ)
      → member j ks ≡ true
      → scan_key j ≡ some n
      → n ≤ highest b top ks
  highest-bounds top [] j n h e = ground arith
  highest-bounds top (k ∷ ks) j n h e = elim (Bool-cases (eq_bytes k j)) [
    | inl same ↦
        let here : n ≤ next_top top (scan_key k) =
          subst (λ o. n ≤ next_top top o) (sym (ap scan_key ((eq_bytes_iff k j).0 same) ∙ e))
            (ground arith) in
        omega (arith, here, highest-step top k ks, highest-le (next_top top (scan_key k)) ks)
    | inr other ↦ omega (
      arith,
      highest-step top k ks,
      highest-bounds (next_top top (scan_key k)) ks j n (ground arith) e,
    )
  ]

  prefixed : (n : ℕ) → has_prefix (queue_key n) queue_prefix ≡ true
  unfolding queue_key has_prefix
  prefixed n = refl

  listed_all :
      (c c' : Contents) (ks : List Bytes) (k : Bytes)
      → Allowed c c' queue_namespace (list queue_prefix) (keys ks)
      → member k ks ≡ has_prefix k queue_prefix && is_some (c queue_namespace k)
  unfolding Answers
  listed_all c c' ks k (carried_out (ls, r, same) e) =
      ap (λ x. member k x) (ap (λ r'. elim r' [ keys x ↦ x | _ ↦ ks ]) r) ∙ same k
  listed_all c c' ks k (refused why r e) = ground arith

  seeded_to :
      (m : Mux S) (s s' : S) (ks : List Bytes)
      → m.queue ≡ some s
      → m.seeded ≡ false
      → ask b none (list queue_prefix) s ≡ (s', keys ks)
      → (seed_next_id b m).next_id ≡ highest b m.next_id ks
  unfolding seed_next_id queued
  seeded_to m s s' ks q u a =
      ap (λ o. (seed_in b m o).next_id) q
      ∙ ap (λ (r : Mux S). r.next_id) (if-false _ _ u)
      ∙ ap (λ (r : S × Reply). (seeded_from b m (r.0, keys_or_error b r.1)).next_id) a

  -- A mux that has not yet read its queue, over a backend that implements the store's contract and is
  -- in a sound state: when the listing of the queue succeeds, and the counter stays within 64 bits, the
  -- key for the next message holds no message, so that queueing it overwrites none.
  pub next_key_is_free :
      Implements b
      → (m : Mux S) (s s' : S) (ks : List Bytes) → m.queue ≡ some s
      → m.seeded ≡ false
      → b.Sound s
      → ask b none (list queue_prefix) s ≡ (s', keys ks)
      → (seed_next_id b m).next_id + 1 < 2 ^ 64
      → b.contents s queue_namespace (queue_key (count_up b (seed_next_id b m)).next_id) ≡ none
  unfolding ask
  next_key_is_free i m s s' ks q u sound a small =
      let id = (count_up b (seed_next_id b m)).next_id in
      let allowed =
        subst
          (λ (r : S × Reply).
            Allowed (b.contents s) (b.contents r.0) queue_namespace (list queue_prefix) r.1)
          a
          (i.step-Allowed
            (record {
              ended = none;
              entropy = none;
              module_id = queue_namespace;
              op = list queue_prefix;
            })
            s sound) in
      elim (Option-cases (b.contents s queue_namespace (queue_key id))) [
        | inl free ↦ free
        | inr (v, used) ↦
            let shown : member (queue_key id) ks ≡ true =
              listed_all (b.contents s) (b.contents s') ks (queue_key id) allowed
              ∙ ground (arith, prefixed id, used) in
            absurd (
              omega (
                arith,
                small,
                seeded_to m s s' ks q u a,
                highest-bounds m.next_id ks (queue_key id) id shown
                    (scan_key-queue_key id (omega arith)),
              ))
      ]
