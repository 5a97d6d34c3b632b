-- ===== src/Store/Tests.antt =====
-- The stores on concrete calls, with a toy database and toy functions for the cryptography.
use weaveplatform_agent_core.Base.{
  ℕ, true, Option, none, some, List, [], ◌∷◌, ◌++◌, length, take, drop, eq_bytes, eq_bytes_iff,
  eq_bytes_refl, if◌then◌else◌, ◌≡◌, refl, sym, ap, ◌∙◌, arith,
}
use weaveplatform_agent_core.HvChannel.Frame.Stream.{take-append, drop-append}
use weaveplatform_agent_core.Store.{Bytes, put, delete, list}
use weaveplatform_agent_core.Store.Buckets.{read, keys_of, member-keys_of}
use weaveplatform_agent_core.Store.Contract.{Implements, effect}
use weaveplatform_agent_core.Store.Service.{Request, none_matches, serve_all, serve_all_isolates}
use weaveplatform_agent_core.Store.Memory.{
  MemStore, bucket_at, mem_get, mem_put, mem_delete, mem_contents, mem_store, mem_store-Implements,
  mem_get-mem_put, mem_get-mem_delete,
}
use weaveplatform_agent_core.Store.Sealed.{
  Bolt, written, unwritten, Aead, aad, filled, seal, open_sealed,
}
use weaveplatform_agent_core.Store.Sealed.Laws.{BoltLaws, AeadLaws}
use weaveplatform_agent_core.Store.Sealed.Laws.Slots.{sealed_store}
use weaveplatform_agent_core.Store.Sealed.Laws.Refines.{sealed_store-Implements}
use weaveplatform_agent_core.Store.Sealed.Moved.{open_sealed-seal}
use weaveplatform_agent_core.Store.Key.{
  Protector, Protects, Steps, missing, loaded, load_or_create_key, load_or_create_key_settles,
}

abbrev no_data : MemStore
no_data = record { data_of = [] }

abbrev toy_bolt : Bolt MemStore
toy_bolt = record {
  has_bucket = λ db m. true;
  value_at = λ db m k. mem_get m db k;
  keys_in = λ db m. keys_of (bucket_at m db);
  create_bucket = λ db m. written db;
  put_value = λ db m k v. written (mem_put m db k v);
  delete_value = λ db m k. written (mem_delete m db k);
}

written-injective : (a b : MemStore) → written a ≡ written b → a ≡ b
written-injective a b e = ap (λ w. elim w [ written d ↦ d | unwritten why ↦ a ]) e

toy_bolt-laws : BoltLaws toy_bolt no_data
unfolding mem_get bucket_at read mem_contents eq_bytes effect
toy_bolt-laws = record {
  empty_value = λ m k. refl;
  no_bucket = λ db m k e. ground arith;
  listed = λ db m k e. member-keys_of k (bucket_at m db);
  created = λ db db' m m' k e. ap (λ d. mem_get m' d k) (sym (written-injective db db' e));
  stored = λ db db' m k v m' k' e.
      ap (λ d. mem_get m' d k') (sym (written-injective (mem_put m db k v) db' e))
      ∙ mem_get-mem_put m k v m' k' db;
  deleted = λ db db' m k m' k' e.
      ap (λ d. mem_get m' d k') (sym (written-injective (mem_delete m db k) db' e))
      ∙ mem_get-mem_delete m k m' k' db;
}

abbrev toy_open : Bytes → Bytes → Option Bytes
toy_open [] a = none
toy_open (n ∷ body) a = if eq_bytes (take n body) a then some (drop n body) else none

-- The additional data is kept in clear before the text.
abbrev toy_aead : Aead
toy_aead = record {
  nonce_size = 2;
  seal_with = λ nonce v a. length a ∷ (a ++ v);
  open_with = λ nonce sealed a. toy_open sealed a;
}

toy_aead-laws : AeadLaws toy_aead
toy_aead-laws = record {
  opens = λ nonce v a. ground (arith, take-append a v, drop-append a v, eq_bytes_refl a);
  binds = λ nonce v a a' w e. ground (arith, take-append a v, eq_bytes_iff a a');
}

abbrev counting : ℕ → ℕ
counting n = n

sealed_store-Implements_example : Implements (sealed_store toy_bolt toy_aead no_data)
sealed_store-Implements_example =
    sealed_store-Implements toy_bolt toy_aead no_data toy_bolt-laws toy_aead-laws

abbrev requests : List Request
requests =
    record { tokens = (5 ∷ []) ∷ []; ended = none; entropy = none; op = put (1 ∷ []) (9 ∷ []) }
    ∷ record { tokens = []; ended = none; entropy = none; op = delete (1 ∷ []) }
    ∷ []

abbrev strangers : List Request
strangers =
    record { tokens = (6 ∷ []) ∷ []; ended = none; entropy = none; op = delete (1 ∷ []) }
    ∷ record { tokens = (5 ∷ []) ∷ (5 ∷ []) ∷ []; ended = none; entropy = none; op = list [] }
    ∷ []

serve_all_isolates_example :
    (mem_contents (serve_all mem_store (97 ∷ []) (5 ∷ []) requests no_data) (98 ∷ []) (1 ∷ [])
      ≡ mem_contents no_data (98 ∷ []) (1 ∷ []))
    × (serve_all mem_store (97 ∷ []) (5 ∷ []) strangers no_data ≡ no_data)
unfolding eq_bytes none_matches
serve_all_isolates_example =
    serve_all_isolates mem_store (97 ∷ []) (5 ∷ []) mem_store-Implements requests strangers no_data
      (98 ∷ []) (1 ∷ []) tt refl refl

open_sealed-seal_example :
    open_sealed toy_aead
      (98 ∷ [])
      (1 ∷ [])
      ((1 ∷ 0 ∷ []) ++ (3 ∷ (aad (97 ∷ []) (1 ∷ []) ++ (9 ∷ []))))
    ≡ none
unfolding seal filled eq_bytes
open_sealed-seal_example =
    open_sealed-seal toy_aead toy_aead-laws counting (97 ∷ []) (1 ∷ []) (9 ∷ []) (98 ∷ []) (1 ∷ [])
      ((1 ∷ 0 ∷ []) ++ (3 ∷ (aad (97 ∷ []) (1 ∷ []) ++ (9 ∷ [])))) refl refl refl

abbrev plain_protector : Protector
plain_protector = record { seal_key = λ key. some key; unseal_key = λ sealed. some sealed }

plain_protector-Protects : Protects plain_protector
unfolding Protects
plain_protector-Protects =
    λ key sealed e. ap (λ o. elim o [ none ↦ some key | some k ↦ some k ]) (sym e)

abbrev all_steps : Steps
all_steps = record {
  random = some counting;
  create_temp = true;
  write_temp = true;
  chmod_temp = true;
  close_temp = true;
  rename_temp = true;
}

load_or_create_key_settles_example :
    (length (filled 32 counting) ≡ 32)
    × ((later : Steps)
        → load_or_create_key plain_protector later
            (load_or_create_key plain_protector all_steps missing).file
          ≡ record {
            file = (load_or_create_key plain_protector all_steps missing).file;
            result = loaded (filled 32 counting);
          })
unfolding load_or_create_key
load_or_create_key_settles_example =
    load_or_create_key_settles plain_protector plain_protector-Protects all_steps missing
      (filled 32 counting) refl
