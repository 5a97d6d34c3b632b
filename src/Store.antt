-- ===== src/Store.antt =====
-- What a module may ask of its key/value store: `StoreBackend` of internal/hostserv/hostserv.go, and
-- the contents that every backend stands for. Module ids, keys and values are byte strings.
pub mod Buckets
pub mod Contract
pub mod Memory
pub mod Sealed
pub mod Key
pub mod Service
mod Tests
use weaveplatform_agent_core.Base.{ℕ, String, Bool, Option, List, eq_bytes, any}

abbrev pub Bytes : Type 0
Bytes = List ℕ

abbrev pub member : Bytes → List Bytes → Bool
member key ks = any (λ k. eq_bytes k key) ks

-- One operation of a module's store.
pub data Op : Type 0 where
  get : Bytes → Op
  put : Bytes → Bytes → Op
  delete : Bytes → Op
  list : Bytes → Op

-- A call: the context's error if it has ended, the bytes that rand.Read fills in from (`none`: it
-- fails), the namespace, and the operation.
pub record Call : Type 0 where
  pub ended : Option String
  pub entropy : Option (ℕ → ℕ)
  pub module_id : Bytes
  pub op : Op

pub data Reply : Type 0 where
  value : Option Bytes → Reply
  done : Reply
  keys : List Bytes → Reply
  error : String → Reply
