-- ===== src/Store/Buckets.antt =====
-- Go maps with byte-string keys, `map[string]V`, as association lists.
use weaveplatform_agent_core.Base.{
  Bool, true, false, ◌&&◌, Option, none, some, List, [], ◌∷◌, keep, eq_bytes, eq_bytes_iff,
  if◌then◌else◌, ◌≡◌, refl, arith,
}
use weaveplatform_agent_core.Store.{Bytes, member}

abbrev pub Bucket {ℓ} : Type ℓ → Type ℓ
Bucket V = List (Bytes × V)

abbrev pub is_some {ℓ} : {A : Type ℓ} → Option A → Bool
is_some none = false
is_some (some a) = true

module _ {ℓ} {V : Type ℓ} where
  unfoldable pub read : Bytes → Bucket V → Option V
  read key [] = none
  read key ((k, v) ∷ entries) = if eq_bytes k key then some v else read key entries

  unfoldable pub write : Bytes → V → Bucket V → Bucket V
  write key new [] = (key, new) ∷ []
  write key new ((k, old) ∷ entries) =
      let rest = write key new entries in
      if eq_bytes k key then (key, new) ∷ entries else (k, old) ∷ rest

  unfoldable pub erase : Bytes → Bucket V → Bucket V
  erase key [] = []
  erase key ((k, v) ∷ entries) =
      let others = erase key entries in if eq_bytes k key then others else (k, v) ∷ others

  -- The keys, in the order of the entries.
  unfoldable pub keys_of : Bucket V → List Bytes
  keys_of [] = []
  keys_of ((k, v) ∷ entries) = k ∷ keys_of entries

  pub read-write :
      (set key : Bytes) (new : V) (entries : Bucket V)
      → read key (write set new entries) ≡ (if eq_bytes set key then some new else read key entries)
  unfolding read write
  read-write set key new [] = refl
  read-write set key new ((k, old) ∷ entries) = ground (
    arith,
    read-write set key new entries,
    eq_bytes_iff k set,
    eq_bytes_iff k key,
    eq_bytes_iff set key,
  )

  pub read-erase :
      (gone key : Bytes) (entries : Bucket V)
      → read key (erase gone entries) ≡ (if eq_bytes gone key then none else read key entries)
  unfolding read erase
  read-erase gone key [] = ground arith
  read-erase gone key ((k, v) ∷ entries) = ground (
    arith,
    read-erase gone key entries,
    eq_bytes_iff k gone,
    eq_bytes_iff k key,
    eq_bytes_iff gone key,
  )

  pub member-keys_of :
      (key : Bytes) (entries : Bucket V) → member key (keys_of entries) ≡ is_some (read key entries)
  unfolding read keys_of
  member-keys_of key [] = refl
  member-keys_of key ((k, v) ∷ entries) = ground (arith, member-keys_of key entries)

pub member-keep :
    (p : Bytes → Bool) (key : Bytes) (ks : List Bytes)
    → member key (keep p ks) ≡ p key && member key ks
member-keep p key [] = ground arith
member-keep p key (k ∷ ks) = ground (arith, member-keep p key ks, eq_bytes_iff k key)
