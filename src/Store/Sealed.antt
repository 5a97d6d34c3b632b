-- ===== src/Store/Sealed.antt =====
-- The encrypted store: internal/store/store.go. bbolt and the AEAD are not the repository's code:
-- they are the fields of `Bolt` and of `Aead`, and what the store relies on is in their laws.
pub mod Laws
pub mod Moved
use weaveplatform_agent_core.Base.{
  ℕ, zero, suc, String, Bool, true, false, Option, none, some, List, [], ◌∷◌, ◌++◌, keep, length,
  take, drop, has_prefix, ltb, if◌then◌else◌,
}
use weaveplatform_agent_core.Store.{
  Bytes, Op, get, put, delete, list, Call, Reply, value, done, keys, error,
}

-- What a bbolt operation yields.
pub data Written (D : Type 0) : Type 0 where
  written : D → Written D
  unwritten : String → Written D

-- bbolt on a database of type D.
pub record Bolt (D : Type 0) : Type 0 where
  -- tx.Bucket(name) != nil
  pub has_bucket : D → Bytes → Bool
  -- b.Get, ForEach's keys
  pub value_at : D → Bytes → Bytes → Option Bytes
  pub keys_in : D → Bytes → List Bytes
  -- tx.CreateBucketIfNotExists, b.Put, b.Delete
  pub create_bucket : D → Bytes → Written D
  pub put_value : D → Bytes → Bytes → Bytes → Written D
  pub delete_value : D → Bytes → Bytes → Written D

-- cipher.AEAD under the master key: nonce, text, additional data.
pub record Aead : Type 0 where
  pub nonce_size : ℕ
  pub seal_with : Bytes → Bytes → Bytes → Bytes
  pub open_with : Bytes → Bytes → Bytes → Option Bytes

abbrev pub aad : Bytes → Bytes → Bytes
aad module_id key = module_id ++ (0 ∷ key)

-- make([]byte, n), filled by rand.Read.
unfoldable pub filled : ℕ → (ℕ → ℕ) → Bytes
filled zero random = []
filled (suc n) random = random n ∷ filled n random

module _ (cipher : Aead) where
  -- The nonce comes first; `none` where rand.Read fails.
  unfoldable pub seal : Option (ℕ → ℕ) → Bytes → Bytes → Bytes → Option Bytes
  seal none m k v = none
  seal (some random) m k v =
      let nonce = filled cipher.nonce_size random in
      some (nonce ++ cipher.seal_with nonce v (aad m k))

  unfoldable pub open_sealed : Bytes → Bytes → Bytes → Option Bytes
  open_sealed m k sealed =
      let n = cipher.nonce_size in
      if ltb (length sealed) n
      then none
      else cipher.open_with (take n sealed) (drop n sealed) (aad m k)

module _ {D : Type 0} (bolt : Bolt D) (cipher : Aead) where
  abbrev pub opened : Option Bytes → Reply
  opened none = error "store: corrupt value"
  opened (some plain) = value (some plain)

  abbrev pub found_value : Bytes → Bytes → Option Bytes → Reply
  found_value m k none = value none
  found_value m k (some sealed) = opened (open_sealed cipher m k sealed)

  unfoldable pub sealed_get : Bytes → Bytes → D → Reply
  sealed_get m k db =
      if bolt.has_bucket db m then found_value m k (bolt.value_at db m k) else value none

  -- db.Update: an error rolls the transaction back.
  abbrev pub commit : D → Written D → D × Reply
  commit db (written after) = (after, done)
  commit db (unwritten why) = (db, error why)

  abbrev pub put_in : Bytes → Bytes → Bytes → Written D → Written D
  put_in m k sealed (unwritten why) = unwritten why
  put_in m k sealed (written db) = bolt.put_value db m k sealed

  abbrev pub put_sealed : Bytes → Bytes → Option Bytes → D → D × Reply
  put_sealed m k none db = (db, error "rand")
  put_sealed m k (some sealed) db = commit db (put_in m k sealed (bolt.create_bucket db m))

  unfoldable pub sealed_put : Option (ℕ → ℕ) → Bytes → Bytes → Bytes → D → D × Reply
  sealed_put entropy m k v db = put_sealed m k (seal cipher entropy m k v) db

  unfoldable pub sealed_delete : Bytes → Bytes → D → D × Reply
  sealed_delete m k db =
      if bolt.has_bucket db m then commit db (bolt.delete_value db m k) else (db, done)

  unfoldable pub sealed_list : Bytes → Bytes → D → List Bytes
  sealed_list m p db =
      if bolt.has_bucket db m then keep (λ k. has_prefix k p) (bolt.keys_in db m) else []

  unfoldable pub sealed_op : Option (ℕ → ℕ) → Bytes → Op → D → D × Reply
  sealed_op entropy m (get k) db = (db, sealed_get m k db)
  sealed_op entropy m (put k v) db = sealed_put entropy m k v db
  sealed_op entropy m (delete k) db = sealed_delete m k db
  sealed_op entropy m (list p) db = (db, keys (sealed_list m p db))

  -- Each operation looks at its context first.
  abbrev pub unless_ended : Option String → Option (ℕ → ℕ) → Bytes → Op → D → D × Reply
  unless_ended (some why) entropy m op db = (db, error why)
  unless_ended none entropy m op db = sealed_op entropy m op db

  unfoldable pub sealed_step : Call → D → D × Reply
  sealed_step call db = unless_ended call.ended call.entropy call.module_id call.op db
