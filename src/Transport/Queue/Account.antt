-- ===== src/Transport/Queue/Account.antt =====
-- What becomes of a queued message in `flush` of internal/transport/transport.go, call by call.
use weaveplatform_agent_core.Base.{
  ℕ, true, Option, none, some, List, ◌∷◌, eq_bytes, eq_bytes_iff, ◌≡◌, ◌⊎◌, inl, inr, sym, ◌∙◌,
  arith, Bool-cases,
}
use weaveplatform_agent_core.Store.{Bytes, Op, get, delete, list, Reply, value}
use weaveplatform_agent_core.Store.Contract.{
  Contents, effect, Answers, Allowed, carried_out, refused, Backend, Implements,
}
use weaveplatform_agent_core.Transport.{QueuedMessage, Attempt, Peer, Codec}
use weaveplatform_agent_core.Transport.Queue.{queue_namespace, ask, Drain}

-- A message was taken by its peer.
pub data Taken (qm : QueuedMessage) : List Attempt → Type 0 where
  here : {log : List Attempt} → Taken qm (record { message = qm; accepted = true } ∷ log)
  earlier : {a : Attempt} {log : List Attempt} → Taken qm log → Taken qm (a ∷ log)

module _ {S : Type 0} (b : Backend S) (i : Implements b) (codec : Codec) (p : Peer) (peer : ℕ) where
  abbrev pub stored : S → Bytes → Option Bytes
  stored s k = b.contents s queue_namespace k

  -- What may have become of a queued message: it is still queued; its peer has taken it; or it does
  -- not decode.
  pub data Accounted (before : Option Bytes) (log : List Attempt) (after : Option Bytes)
      : Type 0 where
    kept : after ≡ before → Accounted before log after
    taken :
        (raw : Bytes) (qm : QueuedMessage)
        → before ≡ some raw
        → codec.unmarshal raw ≡ some qm
        → qm.peer ≡ peer
        → Taken qm log
        → Accounted before log after
    undecodable :
        (raw : Bytes) → before ≡ some raw → codec.unmarshal raw ≡ none → Accounted before log after

  -- The state is sound, and every message is accounted for.
  pub record Safe (s : S) (d : Drain b) : Type 0 where
    pub store-Sound : b.Sound d.store
    pub accounted : (k : Bytes) → Accounted (stored s k) d.tried (stored d.store k)

  pub ask-Sound : (op : Op) (s : S) → b.Sound s → b.Sound (ask b none op s).0
  unfolding ask
  ask-Sound op s sound =
      i.step-Sound (record { ended = none; entropy = none; module_id = queue_namespace; op = op }) s
        sound

  pub ask-Allowed :
      (op : Op) (s : S)
      → b.Sound s
      → Allowed
          (b.contents s)
          (b.contents (ask b none op s).0)
          queue_namespace
          op
          (ask b none op s).1
  unfolding ask
  ask-Allowed op s sound =
      i.step-Allowed (record { ended = none; entropy = none; module_id = queue_namespace; op = op })
        s sound

  pub get_leaves :
      (k : Bytes) (c c' : Contents) (r : Reply) (m j : Bytes)
      → Allowed c c' queue_namespace (get k) r
      → c' m j ≡ c m j
  unfolding effect
  get_leaves k c c' r m j (carried_out a e) = e m j
  get_leaves k c c' r m j (refused why a e) = e m j

  pub list_leaves :
      (q : Bytes) (c c' : Contents) (r : Reply) (m j : Bytes)
      → Allowed c c' queue_namespace (list q) r
      → c' m j ≡ c m j
  unfolding effect
  list_leaves q c c' r m j (carried_out a e) = e m j
  list_leaves q c c' r m j (refused why a e) = e m j

  -- A delete changes its own key, if any.
  pub delete_leaves :
      (k : Bytes) (c c' : Contents) (r : Reply) (j : Bytes)
      → Allowed c c' queue_namespace (delete k) r
      → (k ≡ j) ⊎ (c' queue_namespace j ≡ c queue_namespace j)
  unfolding effect
  delete_leaves k c c' r j (carried_out a e) = elim (Bool-cases (eq_bytes k j)) [
    | inl same ↦ inl ((eq_bytes_iff k j).0 same)
    | inr other ↦ inr (ground (arith, e queue_namespace j))
  ]
  delete_leaves k c c' r j (refused why a e) = inr (e queue_namespace j)

  pub got :
      (k : Bytes) (c c' : Contents) (raw : Bytes)
      → Allowed c c' queue_namespace (get k) (value (some raw))
      → c queue_namespace k ≡ some raw
  unfolding Answers
  got k c c' raw (carried_out a e) = ground arith
  got k c c' raw (refused why a e) = ground arith

  -- The value is unchanged, and the log may have grown.
  pub unchanged :
      (o : Option Bytes) (log : List Attempt) (x x' : Option Bytes)
      → x' ≡ x
      → Accounted o log x
      → Accounted o log x'
  unchanged o log x x' e (kept h) = kept (e ∙ h)
  unchanged o log x x' e (taken raw qm f g h t) = taken raw qm f g h t
  unchanged o log x x' e (undecodable raw f g) = undecodable raw f g

  pub grown :
      (o : Option Bytes) (log : List Attempt) (a : Attempt) (x : Option Bytes)
      → Accounted o log x
      → Accounted o (a ∷ log) x
  grown o log a x (kept h) = kept h
  grown o log a x (taken raw qm f g h t) = taken raw qm f g h (earlier t)
  grown o log a x (undecodable raw f g) = undecodable raw f g

  -- A value that is deleted after it was taken, or because it does not decode.
  pub deleted-Taken :
      (o : Option Bytes) (log : List Attempt) (x x' : Option Bytes) (raw : Bytes)
      (qm : QueuedMessage)
      → x ≡ some raw
      → codec.unmarshal raw ≡ some qm
      → qm.peer ≡ peer
      → Taken qm log
      → Accounted o log x
      → Accounted o log x'
  deleted-Taken o log x x' raw qm e g h t (kept f) = taken raw qm (sym f ∙ e) g h t
  deleted-Taken o log x x' raw qm e g h t (taken raw' qm' f' g' h' t') = taken raw' qm' f' g' h' t'
  deleted-Taken o log x x' raw qm e g h t (undecodable raw' f' g') = undecodable raw' f' g'

  pub deleted_broken :
      (o : Option Bytes) (log : List Attempt) (x x' : Option Bytes) (raw : Bytes)
      → x ≡ some raw
      → codec.unmarshal raw ≡ none
      → Accounted o log x
      → Accounted o log x'
  deleted_broken o log x x' raw e g (kept f) = undecodable raw (sym f ∙ e) g
  deleted_broken o log x x' raw e g (taken raw' qm' f' g' h' t') = taken raw' qm' f' g' h' t'
  deleted_broken o log x x' raw e g (undecodable raw' f' g') = undecodable raw' f' g'
