-- ===== src/Store/Sealed/Laws.antt =====
-- What internal/store/store.go relies on in bbolt and in the AEAD, and what the sealed bytes hold.
pub mod Slots
pub mod Refines
use weaveplatform_agent_core.Base.{
  ℕ, zero, suc, Bool, true, false, Option, none, some, List, [], ◌∷◌, ◌++◌, length, take, drop,
  length-append, ltb, if◌then◌else◌, if-false, ◌≡◌, refl, sym, ap, ◌∙◌, subst, arith,
}
use weaveplatform_agent_core.HvChannel.Frame.Stream.{take-append, drop-append}
use weaveplatform_agent_core.Store.{Bytes, member}
use weaveplatform_agent_core.Store.Buckets.{is_some}
use weaveplatform_agent_core.Store.Contract.{same_slot}
use weaveplatform_agent_core.Store.Sealed.{
  Written, written, unwritten, Bolt, Aead, aad, filled, seal, open_sealed,
}

-- bbolt's documented behaviour: a map per bucket, of which a write changes one entry.
pub record BoltLaws {D : Type 0} (bolt : Bolt D) (empty : D) : Type 0 where
  pub empty_value : (m k : Bytes) → bolt.value_at empty m k ≡ none
  pub no_bucket :
      (db : D) (m k : Bytes) → bolt.has_bucket db m ≡ false → bolt.value_at db m k ≡ none
  pub listed :
      (db : D) (m k : Bytes)
      → bolt.has_bucket db m ≡ true
      → member k (bolt.keys_in db m) ≡ is_some (bolt.value_at db m k)
  pub created :
      (db db' : D) (m m' k : Bytes)
      → bolt.create_bucket db m ≡ written db'
      → bolt.value_at db' m' k ≡ bolt.value_at db m' k
  pub stored :
      (db db' : D) (m k v m' k' : Bytes)
      → bolt.put_value db m k v ≡ written db'
      → bolt.value_at db' m' k' ≡ (if same_slot m k m' k' then some v else bolt.value_at db m' k')
  pub deleted :
      (db db' : D) (m k m' k' : Bytes)
      → bolt.delete_value db m k ≡ written db'
      → bolt.value_at db' m' k' ≡ (if same_slot m k m' k' then none else bolt.value_at db m' k')

-- The AEAD opens what it sealed, under the same additional data only.
pub record AeadLaws (cipher : Aead) : Type 0 where
  pub opens : (nonce v a : Bytes) → cipher.open_with nonce (cipher.seal_with nonce v a) a ≡ some v
  pub binds :
      (nonce v a a' w : Bytes)
      → cipher.open_with nonce (cipher.seal_with nonce v a) a' ≡ some w
      → a ≡ a'

pub length-filled : (n : ℕ) (random : ℕ → ℕ) → length (filled n random) ≡ n
unfolding filled
length-filled zero random = refl
length-filled (suc n) random = omega (arith, length-filled n random)

-- The cut after the nonce, of what `seal` wrote, under any slot.
pub open_sealed-split :
    (cipher : Aead) (nonce c m k : Bytes)
    → length nonce ≡ cipher.nonce_size
    → open_sealed cipher m k (nonce ++ c) ≡ cipher.open_with nonce c (aad m k)
unfolding open_sealed
open_sealed-split cipher nonce c m k sized =
    grind (arith, length-append nonce c, take-append nonce c, drop-append nonce c)
