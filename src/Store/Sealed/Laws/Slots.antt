-- ===== src/Store/Sealed/Laws/Slots.antt =====
-- The slots of the encrypted store's database (internal/store/store.go): what is stored in them, and
-- what a read, a write and a delete do to it.
use weaveplatform_agent_core.Base.{
  ℕ, true, Option, none, some, some-injective, eq_bytes_iff, if◌then◌else◌, if-true, if-false, ◌≡◌,
  refl, sym, ap, ◌∙◌, subst, subst₂, arith, Bool-cases, inl, inr,
}
use weaveplatform_agent_core.Store.{Bytes, put, delete, value}
use weaveplatform_agent_core.Store.Buckets.{is_some}
use weaveplatform_agent_core.Store.Contract.{Contents, Backend, effect, same_slot}
use weaveplatform_agent_core.Store.Sealed.{
  written, Bolt, Aead, aad, filled, seal, open_sealed, opened, found_value, sealed_get, sealed_step,
}
use weaveplatform_agent_core.Store.Sealed.Laws.{
  BoltLaws, AeadLaws, length-filled, open_sealed-split,
}

module _ {D : Type 0} (bolt : Bolt D) (cipher : Aead) (empty : D) where
  abbrev pub plain : Bytes → Bytes → Option Bytes → Option Bytes
  plain m k none = none
  plain m k (some sealed) = open_sealed cipher m k sealed

  -- What is stored under the master key.
  unfoldable pub sealed_contents : D → Contents
  sealed_contents db m k = plain m k (bolt.value_at db m k)

  -- Every value of the file opens in its place.
  unfoldable pub SealedSound : D → Type 0
  SealedSound db =
      (m k sealed : Bytes)
      → bolt.value_at db m k ≡ some sealed
      → is_some (open_sealed cipher m k sealed) ≡ true

  abbrev pub sealed_store : Backend D
  sealed_store = record {
    step = sealed_step bolt cipher;
    contents = sealed_contents;
    Sound = SealedSound;
    start = empty;
  }

  module _ (b : BoltLaws bolt empty) (a : AeadLaws cipher) where
    pub opens_in_place :
        (random : ℕ → ℕ) (m k v : Bytes)
        → (sealed : Bytes) → seal cipher (some random) m k v ≡ some sealed
        → open_sealed cipher m k sealed ≡ some v
    unfolding seal
    opens_in_place random m k v sealed e =
        let nonce = filled cipher.nonce_size random in
        subst (λ s. open_sealed cipher m k s ≡ some v) (some-injective _ _ e)
          (open_sealed-split cipher nonce _ m k (length-filled cipher.nonce_size random)
            ∙ a.opens nonce v (aad m k))

    pub is_some-plain :
        (db : D) (m k : Bytes)
        → SealedSound db
        → is_some (sealed_contents db m k) ≡ is_some (bolt.value_at db m k)
    unfolding sealed_contents SealedSound
    is_some-plain db m k sound = go (bolt.value_at db m k) refl
      where
        go : (o : Option Bytes) → bolt.value_at db m k ≡ o → is_some (plain m k o) ≡ is_some o
        go none e = refl
        go (some sealed) e = sound m k sealed e

    -- What is read is what is stored.
    pub sealed_get-value :
        (db : D) (m k : Bytes)
        → SealedSound db
        → sealed_get bolt cipher m k db ≡ value (sealed_contents db m k)
    unfolding sealed_contents SealedSound sealed_get
    sealed_get-value db m k sound = elim (Bool-cases (bolt.has_bucket db m)) [
      | inl there ↦ if-true _ _ there ∙ go (bolt.value_at db m k) refl
      | inr missing ↦
          if-false _ _ missing ∙ ap (λ o. value (plain m k o)) (sym (b.no_bucket db m k missing))
    ]
      where
        shown :
            (sealed : Bytes) (p : Option Bytes) → is_some p ≡ true → opened bolt cipher p ≡ value p
        shown sealed none i = ground arith
        shown sealed (some w) i = refl

        go :
            (o : Option Bytes)
            → bolt.value_at db m k ≡ o
            → found_value bolt cipher m k o ≡ value (plain m k o)
        go none e = refl
        go (some sealed) e = shown sealed (open_sealed cipher m k sealed) (sound m k sealed e)

    OpensIn : Bytes → Bytes → Bytes → Bytes → Type 0
    OpensIn m k sealed v = open_sealed cipher m k sealed ≡ some v

    -- What stands in a slot after a put.
    stored_at :
        (db after made : D) (m k sealed : Bytes)
        → bolt.create_bucket db m ≡ written made
        → bolt.put_value made m k sealed ≡ written after
        → (m' k' : Bytes)
        → bolt.value_at after m' k'
          ≡ (if same_slot m k m' k' then some sealed else bolt.value_at db m' k')
    stored_at db after made m k sealed c p m' k' =
        ground (arith, b.stored made after m k sealed m' k' p, b.created db made m m' k' c)

    -- A slot that tests the same is the same.
    opens_there :
        (m k m' k' sealed v : Bytes)
        → same_slot m k m' k' ≡ true
        → OpensIn m k sealed v
        → OpensIn m' k' sealed v
    unfolding OpensIn
    opens_there m k m' k' sealed v same o =
        subst₂ (λ x y. open_sealed cipher x y sealed ≡ some v)
          ((eq_bytes_iff m m').0 (ground arith)) ((eq_bytes_iff k k').0 (ground arith)) o

    -- A value sealed for its slot changes that slot.
    pub stored_contents :
        (db after made : D) (random : ℕ → ℕ) (m k v sealed : Bytes)
        → seal cipher (some random) m k v ≡ some sealed
        → bolt.create_bucket db m ≡ written made
        → bolt.put_value made m k sealed ≡ written after
        → (m' k' : Bytes)
        → sealed_contents after m' k' ≡ effect m (put k v) (sealed_contents db) m' k'
    unfolding sealed_contents effect OpensIn
    stored_contents db after made random m k v sealed e c p m' k' =
        elim (Bool-cases (same_slot m k m' k')) [
          | inl same ↦
              ap (plain m' k') (stored_at db after made m k sealed c p m' k' ∙ if-true _ _ same)
              ∙ opens_there m k m' k' sealed v same (opens_in_place random m k v sealed e)
              ∙ sym (if-true _ _ same)
          | inr other ↦
              ap (plain m' k') (stored_at db after made m k sealed c p m' k' ∙ if-false _ _ other)
              ∙ sym (if-false _ _ other)
        ]

    pub stored_sound :
        (db after made : D) (random : ℕ → ℕ) (m k v sealed : Bytes)
        → seal cipher (some random) m k v ≡ some sealed
        → bolt.create_bucket db m ≡ written made
        → bolt.put_value made m k sealed ≡ written after
        → SealedSound db
        → SealedSound after
    unfolding SealedSound OpensIn
    stored_sound db after made random m k v sealed e c p sound m' k' s' at =
        elim (Bool-cases (same_slot m k m' k')) [
          | inl same ↦ ap is_some (
              ap (open_sealed cipher m' k') (
                some-injective _ _
                  (sym at ∙ stored_at db after made m k sealed c p m' k' ∙ if-true _ _ same))
              ∙ opens_there m k m' k' sealed v same (opens_in_place random m k v sealed e))
          | inr other ↦
              sound m' k' s'
                (sym (if-false _ _ other) ∙ sym (stored_at db after made m k sealed c p m' k') ∙ at)
        ]

    pub deleted_contents :
        (db after : D) (m k : Bytes)
        → bolt.delete_value db m k ≡ written after
        → (m' k' : Bytes)
        → sealed_contents after m' k' ≡ effect m (delete k) (sealed_contents db) m' k'
    unfolding sealed_contents effect
    deleted_contents db after m k p m' k' = ground (arith, b.deleted db after m k m' k' p)

    pub deleted_sound :
        (db after : D) (m k : Bytes)
        → bolt.delete_value db m k ≡ written after
        → SealedSound db
        → SealedSound after
    unfolding SealedSound
    deleted_sound db after m k p sound m' k' s' at =
        sound m' k' s' (ground (arith, b.deleted db after m k m' k' p))
