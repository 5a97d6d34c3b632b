-- ===== src/Store/Sealed/Laws/Refines.antt =====
-- The encrypted store (internal/store/store.go) against the contract of `StoreBackend`.
use weaveplatform_agent_core.Base.{
  ℕ, String, false, ◌&&◌, Option, none, some, has_prefix, eq_bytes_iff, eq_bytes_refl, if-true,
  if-false, if-both, ◌≡◌, refl, sym, ap, ◌∙◌, arith, Bool-cases, inl, inr,
}
use weaveplatform_agent_core.Store.{Bytes, member, Op, get, put, delete, list, value, done}
use weaveplatform_agent_core.Store.Buckets.{is_some, member-keep}
use weaveplatform_agent_core.Store.Contract.{
  Implements, Allowed, carried_out, refused, effect, same_slot, Answers,
}
use weaveplatform_agent_core.Store.Sealed.{
  Written, written, unwritten, Bolt, Aead, seal, sealed_get, commit, put_in, put_sealed, sealed_put,
  sealed_delete, sealed_list, sealed_op, unless_ended, sealed_step,
}
use weaveplatform_agent_core.Store.Sealed.Laws.{BoltLaws, AeadLaws}
use weaveplatform_agent_core.Store.Sealed.Laws.Slots.{
  plain, sealed_contents, SealedSound, sealed_store, is_some-plain, sealed_get-value,
  stored_contents, stored_sound, deleted_contents, deleted_sound,
}

module _ {D : Type 0} (bolt : Bolt D) (cipher : Aead) (empty : D) where
  module _ (b : BoltLaws bolt empty) (a : AeadLaws cipher) where
    listed_keys :
        (db : D) (m p k : Bytes)
        → SealedSound bolt cipher empty db
        → member k (sealed_list bolt cipher m p db)
          ≡ has_prefix k p && is_some (sealed_contents bolt cipher empty db m k)
    unfolding sealed_list
    listed_keys db m p k sound = elim (Bool-cases (bolt.has_bucket db m)) [
      | inl there ↦ grind (
        arith,
        member-keep (λ j. has_prefix j p) k (bolt.keys_in db m),
        b.listed db m k there,
        is_some-plain bolt cipher empty b a db m k sound,
      )
      | inr missing ↦
          grind
            (arith, is_some-plain bolt cipher empty b a db m k sound, b.no_bucket db m k missing)
    ]

    put-Allowed :
        (db : D) (entropy : Option (ℕ → ℕ)) (m k v : Bytes)
        → SealedSound bolt cipher empty db
        → SealedSound bolt cipher empty (sealed_put bolt cipher entropy m k v db).0
          × Allowed
              (sealed_contents bolt cipher empty db)
              (sealed_contents bolt cipher empty (sealed_put bolt cipher entropy m k v db).0)
              m
              (put k v)
              (sealed_put bolt cipher entropy m k v db).1
    unfolding sealed_put seal Answers
    put-Allowed db entropy m k v sound = random_read entropy (seal cipher entropy m k v) refl
      where
        put_step :
            (random : ℕ → ℕ) (sealed : Bytes)
            → seal cipher (some random) m k v ≡ some sealed
            → (made : D) → bolt.create_bucket db m ≡ written made
            → (w : Written D) → bolt.put_value made m k sealed ≡ w
            → SealedSound bolt cipher empty (commit bolt cipher db w).0
              × Allowed
                  (sealed_contents bolt cipher empty db)
                  (sealed_contents bolt cipher empty (commit bolt cipher db w).0)
                  m
                  (put k v)
                  (commit bolt cipher db w).1
        put_step random sealed e made c (unwritten why) p =
            (sound, refused why refl (λ m' k'. refl))
        put_step random sealed e made c (written after) p = (
          stored_sound bolt cipher empty b a db after made random m k v sealed e c p sound,
          carried_out refl
              (stored_contents bolt cipher empty b a db after made random m k v sealed e c p),
        )

        create_step :
            (random : ℕ → ℕ) (sealed : Bytes)
            → seal cipher (some random) m k v ≡ some sealed
            → (w : Written D) → bolt.create_bucket db m ≡ w
            → SealedSound bolt cipher empty
                (commit bolt cipher db (put_in bolt cipher m k sealed w)).0
              × Allowed
                  (sealed_contents bolt cipher empty db)
                  (sealed_contents bolt cipher empty
                    (commit bolt cipher db (put_in bolt cipher m k sealed w)).0)
                  m
                  (put k v)
                  (commit bolt cipher db (put_in bolt cipher m k sealed w)).1
        create_step random sealed e (unwritten why) c = (sound, refused why refl (λ m' k'. refl))
        create_step random sealed e (written made) c =
            put_step random sealed e made c (bolt.put_value made m k sealed) refl

        random_read :
            (rand : Option (ℕ → ℕ)) (o : Option Bytes)
            → seal cipher rand m k v ≡ o
            → SealedSound bolt cipher empty (put_sealed bolt cipher m k o db).0
              × Allowed
                  (sealed_contents bolt cipher empty db)
                  (sealed_contents bolt cipher empty (put_sealed bolt cipher m k o db).0)
                  m
                  (put k v)
                  (put_sealed bolt cipher m k o db).1
        random_read rand none e = (sound, refused "rand" refl (λ m' k'. refl))
        random_read none (some sealed) e = ground arith
        random_read (some random) (some sealed) e =
            create_step random sealed e (bolt.create_bucket db m) refl

    no_bucket_to_delete :
        (db : D) (m k : Bytes)
        → bolt.has_bucket db m ≡ false
        → (m' k' : Bytes)
        → sealed_contents bolt cipher empty db m' k'
          ≡ effect m (delete k) (sealed_contents bolt cipher empty db) m' k'
    unfolding sealed_contents effect
    no_bucket_to_delete db m k missing m' k' = elim (Bool-cases (same_slot m k m' k')) [
      | inl same ↦
          let there : m ≡ m' = (eq_bytes_iff m m').0 (ground arith) in
          ap (plain bolt cipher empty m' k')
            (b.no_bucket db m' k' (ap (bolt.has_bucket db) (sym there) ∙ missing))
          ∙ sym (if-true _ _ same)
      | inr other ↦ sym (if-false _ _ other)
    ]

    delete-Allowed :
        (db : D) (m k : Bytes)
        → SealedSound bolt cipher empty db
        → SealedSound bolt cipher empty (sealed_delete bolt cipher m k db).0
          × Allowed
              (sealed_contents bolt cipher empty db)
              (sealed_contents bolt cipher empty (sealed_delete bolt cipher m k db).0)
              m
              (delete k)
              (sealed_delete bolt cipher m k db).1
    unfolding sealed_delete Answers effect
    delete-Allowed db m k sound =
        if-both
          (λ r.
            SealedSound bolt cipher empty r.0
            × Allowed (sealed_contents bolt cipher empty db) (sealed_contents bolt cipher empty r.0)
                m (delete k) r.1)
          (bolt.has_bucket db m) (commit bolt cipher db (bolt.delete_value db m k)) (db, done)
          (λ there. go (bolt.delete_value db m k) refl)
          (λ missing. (sound, carried_out refl (no_bucket_to_delete db m k missing)))
      where
        go :
            (w : Written D)
            → bolt.delete_value db m k ≡ w
            → SealedSound bolt cipher empty (commit bolt cipher db w).0
              × Allowed
                  (sealed_contents bolt cipher empty db)
                  (sealed_contents bolt cipher empty (commit bolt cipher db w).0)
                  m
                  (delete k)
                  (commit bolt cipher db w).1
        go (unwritten why) e = (sound, refused why refl (λ m' k'. refl))
        go (written after) e = (
          deleted_sound bolt cipher empty b a db after m k e sound,
          carried_out refl (deleted_contents bolt cipher empty b a db after m k e),
        )

    op-Allowed :
        (db : D) (entropy : Option (ℕ → ℕ)) (m : Bytes) (op : Op)
        → SealedSound bolt cipher empty db
        → SealedSound bolt cipher empty (sealed_op bolt cipher entropy m op db).0
          × Allowed
              (sealed_contents bolt cipher empty db)
              (sealed_contents bolt cipher empty (sealed_op bolt cipher entropy m op db).0)
              m
              op
              (sealed_op bolt cipher entropy m op db).1
    unfolding sealed_op Answers effect
    op-Allowed db entropy m (get k) sound =
        (sound, carried_out (sealed_get-value bolt cipher empty b a db m k sound) (λ m' k'. refl))
    op-Allowed db entropy m (put k v) sound = put-Allowed db entropy m k v sound
    op-Allowed db entropy m (delete k) sound = delete-Allowed db m k sound
    op-Allowed db entropy m (list p) sound = (
      sound,
      carried_out (sealed_list bolt cipher m p db, refl, λ k. listed_keys db m p k sound)
          (λ m' k'. refl),
    )

    ended-Allowed :
        (db : D) (ended : Option String) (entropy : Option (ℕ → ℕ)) (m : Bytes) (op : Op)
        → SealedSound bolt cipher empty db
        → SealedSound bolt cipher empty (unless_ended bolt cipher ended entropy m op db).0
          × Allowed
              (sealed_contents bolt cipher empty db)
              (sealed_contents bolt cipher empty (unless_ended bolt cipher ended entropy m op db).0)
              m
              op
              (unless_ended bolt cipher ended entropy m op db).1
    ended-Allowed db (some why) entropy m op sound = (sound, refused why refl (λ m' k'. refl))
    ended-Allowed db none entropy m op sound = op-Allowed db entropy m op sound

    -- The encrypted store implements the contract of a module's store: on a database whose values all
    -- open in their place, as the empty one is, every call leaves such a database, and it is answered
    -- as the map of namespaces and keys answers it, or with an error and nothing changed. Here bbolt
    -- keeps a map for each bucket, and the AEAD opens what it sealed under the same additional data.
    pub sealed_store-Implements : Implements (sealed_store bolt cipher empty)
    unfolding sealed_contents SealedSound sealed_step
    sealed_store-Implements = record {
      start-Sound = λ m k s e. ground (arith, b.empty_value m k);
      start_empty = λ m k. ap (plain bolt cipher empty m k) (b.empty_value m k);
      step-Sound =
          λ call db s. (ended-Allowed db call.ended call.entropy call.module_id call.op s).0;
      step-Allowed =
          λ call db s. (ended-Allowed db call.ended call.entropy call.module_id call.op s).1;
    }

    -- A put whose context is live and whose random bytes and database writes succeed is done, and a get
    -- of the same module and key on the database that it leaves, which is sound if it was, reads the
    -- value back.
    pub put_then_get :
        (db made after : D) (random : ℕ → ℕ) (m k v sealed : Bytes)
        → SealedSound bolt cipher empty db
        → seal cipher (some random) m k v ≡ some sealed
        → bolt.create_bucket db m ≡ written made
        → bolt.put_value made m k sealed ≡ written after
        → (sealed_step bolt cipher
              (record { ended = none; entropy = some random; module_id = m; op = put k v })
              db
            ≡ (after, done))
          × (sealed_get bolt cipher m k after ≡ value (some v))
    unfolding sealed_contents sealed_step sealed_op sealed_put effect
    put_then_get db made after random m k v sealed sound e c p = (
      ap (λ o. put_sealed bolt cipher m k o db) e
          ∙ ap (λ w. commit bolt cipher db (put_in bolt cipher m k sealed w)) c
          ∙ ap (commit bolt cipher db) p,
      sealed_get-value bolt cipher empty b a after m k
            (stored_sound bolt cipher empty b a db after made random m k v sealed e c p sound)
          ∙ ap value (
              stored_contents bolt cipher empty b a db after made random m k v sealed e c p m k
              ∙ if-true {b = same_slot m k m k} _ _
                  (ground (arith, eq_bytes_refl m, eq_bytes_refl k))),
    )
