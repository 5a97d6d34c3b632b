-- ===== src/Store/Contract.antt =====
-- The contract of `StoreBackend` (internal/hostserv/hostserv.go): a store is a map from a namespace
-- and a key to a value, and an operation that cannot be carried out reports it and changes nothing.
pub mod Isolation
use weaveplatform_agent_core.Base.{
  Bool, ◌&&◌, Option, none, some, List, [], ◌∷◌, eq_bytes, has_prefix, String, if◌then◌else◌, ◌≡◌,
  refl,
}
use weaveplatform_agent_core.Store.{
  Bytes, member, Op, get, put, delete, list, Call, Reply, value, done, keys, error,
}
use weaveplatform_agent_core.Store.Buckets.{is_some}

-- What is stored in a namespace under a key.
abbrev pub Contents : Type 0
Contents = Bytes → Bytes → Option Bytes

abbrev pub same_slot : Bytes → Bytes → Bytes → Bytes → Bool
same_slot m k m' k' = eq_bytes m m' && eq_bytes k k'

-- The contents after an operation of `m` that is carried out, at one slot.
unfoldable pub effect : Bytes → Op → Contents → Contents
effect m (get k) c m' k' = c m' k'
effect m (put k v) c m' k' = if same_slot m k m' k' then some v else c m' k'
effect m (delete k) c m' k' = if same_slot m k m' k' then none else c m' k'
effect m (list p) c m' k' = c m' k'

-- What an operation of `m` on the contents `c` may answer, other than an error.
unfoldable pub Answers : Bytes → Op → Contents → Reply → Type 0
Answers m (get k) c r = r ≡ value (c m k)
Answers m (put k v) c r = r ≡ done
Answers m (delete k) c r = r ≡ done
Answers m (list p) c r =
    (ks : List Bytes) × (r ≡ keys ks)
    × ((k : Bytes) → member k ks ≡ has_prefix k p && is_some (c m k))

-- A step of the contract from the contents `c` to `c'`, with its reply.
pub data Allowed (c c' : Contents) (m : Bytes) (op : Op) (r : Reply) : Type 0 where
  carried_out :
      Answers m op c r → ((m' k : Bytes) → c' m' k ≡ effect m op c m' k) → Allowed c c' m op r
  refused :
      (why : String) → r ≡ error why → ((m' k : Bytes) → c' m' k ≡ c m' k) → Allowed c c' m op r

-- A run of the contract: the replies that a sequence of calls may get, and where it may end.
pub data Run : Contents → List Call → List Reply → Contents → Type 0 where
  rest : {c : Contents} → Run c [] [] c
  next :
      {call : Call} {calls : List Call} {r : Reply} {rs : List Reply} {c c' c'' : Contents}
      → Allowed c c' call.module_id call.op r
      → Run c' calls rs c''
      → Run c (call ∷ calls) (r ∷ rs) c''

-- A backend: its states, what they store, and one step for each call.
pub record Backend (S : Type 0) : Type 1 where
  pub step : Call → S → S × Reply
  pub contents : S → Contents
  pub Sound : S → Type 0
  pub start : S

-- What a backend has to show.
pub record Implements {S : Type 0} (b : Backend S) : Type 0 where
  pub start-Sound : b.Sound b.start
  pub start_empty : (m k : Bytes) → b.contents b.start m k ≡ none
  pub step-Sound : (call : Call) (s : S) → b.Sound s → b.Sound (b.step call s).0
  pub step-Allowed :
      (call : Call) (s : S)
      → b.Sound s
      → Allowed
          (b.contents s)
          (b.contents (b.step call s).0)
          call.module_id
          call.op
          (b.step call s).1

module _ {S : Type 0} (b : Backend S) where
  -- A backend's calls one after the other, with the replies.
  unfoldable pub answer_all : List Call → S → S × List Reply
  answer_all [] s = (s, [])
  answer_all (call ∷ calls) s =
      let after = b.step call s in
      let later = answer_all calls after.0 in (later.0, after.1 ∷ later.1)

  -- Whatever is asked of a backend that implements the contract, in any state, is a run of it.
  pub answer_all-Run :
      Implements b
      → (calls : List Call) (s : S) → b.Sound s
      → Run (b.contents s) calls (answer_all calls s).1 (b.contents (answer_all calls s).0)
  unfolding answer_all
  answer_all-Run i [] s sound = rest
  answer_all-Run i (call ∷ calls) s sound =
      next (i.step-Allowed call s sound)
        (answer_all-Run i calls (b.step call s).0 (i.step-Sound call s sound))
