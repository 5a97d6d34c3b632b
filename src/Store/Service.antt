-- ===== src/Store/Service.antt =====
-- The store service that core serves to one module: `tokenGate` and `storeServer` of
-- internal/hostserv/hostserv.go. The server is made with the module's id and token; a request names a
-- key, never a namespace.
use weaveplatform_agent_core.Base.{
  ℕ, String, Bool, true, false, not, ◌&&◌, Option, List, [], ◌∷◌, eq_bytes, if◌then◌else◌, if-both,
  if-false, ◌≡◌, refl, ap, ◌∙◌, arith,
}
use weaveplatform_agent_core.Store.{Bytes, Op, Call, Reply}
use weaveplatform_agent_core.Store.Contract.{Backend, Implements}
use weaveplatform_agent_core.Store.Contract.Isolation.{step_isolates}

-- A request with the values of its token metadata.
pub record Request : Type 0 where
  pub tokens : List Bytes
  pub ended : Option String
  pub entropy : Option (ℕ → ℕ)
  pub op : Op

pub data Answer : Type 0 where
  unauthenticated : Answer
  replied : Reply → Answer

-- Exactly one value, equal to the token.
abbrev pub token_matches : Bytes → List Bytes → Bool
token_matches token [] = false
token_matches token (v ∷ []) = eq_bytes v token
token_matches token (v ∷ w ∷ vs) = false

module _ {S : Type 0} (b : Backend S) (id token : Bytes) where
  abbrev pub call_of : Request → Call
  call_of r = record { ended = r.ended; entropy = r.entropy; module_id = id; op = r.op }

  abbrev pub answered_by : S × Reply → S × Answer
  answered_by (s, r) = (s, replied r)

  unfoldable pub serve : Request → S → S × Answer
  serve r s =
      if token_matches token r.tokens
      then answered_by (b.step (call_of r) s)
      else (s, unauthenticated)

  unfoldable pub serve_all : List Request → S → S
  serve_all [] s = s
  serve_all (r ∷ rs) s = serve_all rs (serve r s).0

  unfoldable pub none_matches : List Request → Bool
  none_matches [] = true
  none_matches (r ∷ rs) = not (token_matches token r.tokens) && none_matches rs

  serve-Sound : Implements b → (r : Request) (s : S) → b.Sound s → b.Sound (serve r s).0
  unfolding serve
  serve-Sound i r s sound =
      if-both (λ (q : S × Answer). b.Sound q.0) (token_matches token r.tokens) _ _
        (λ known. i.step-Sound (call_of r) s sound) (λ unknown. sound)

  serve_isolates :
      Implements b
      → (r : Request) (s : S) (m k : Bytes) → b.Sound s
      → eq_bytes id m ≡ false
      → b.contents (serve r s).0 m k ≡ b.contents s m k
  unfolding serve
  serve_isolates i r s m k sound other =
      if-both (λ (q : S × Answer). b.contents q.0 m k ≡ b.contents s m k)
        (token_matches token r.tokens) _ _
        (λ known.
          step_isolates id m k r.op (b.step (call_of r) s).1 (b.contents s)
            (b.contents (b.step (call_of r) s).0) (i.step-Allowed (call_of r) s sound) other)
        (λ unknown. refl)

  rejected_all : (rs : List Request) (s : S) → none_matches rs ≡ true → serve_all rs s ≡ s
  unfolding serve_all serve none_matches
  rejected_all [] s h = refl
  rejected_all (r ∷ rs) s h =
      ap (λ (q : S × Answer). serve_all rs q.0)
        (if-false {b = token_matches token r.tokens} _ _ (ground arith))
      ∙ rejected_all rs s (ground arith)

  all_isolated :
      Implements b
      → (rs : List Request) (s : S) (m k : Bytes) → b.Sound s
      → eq_bytes id m ≡ false
      → b.contents (serve_all rs s) m k ≡ b.contents s m k
  unfolding serve_all
  all_isolated i [] s m k sound other = refl
  all_isolated i (r ∷ rs) s m k sound other =
      all_isolated i rs (serve r s).0 m k (serve-Sound i r s sound) other
      ∙ serve_isolates i r s m k sound other

  -- Over a backend that implements the store's contract, in a sound state: whatever requests are made
  -- of a module's store service, with or without its token, every key of every other namespace holds
  -- what it held; and requests of which none presents the token, once and alone, change nothing at all.
  pub serve_all_isolates :
      Implements b
      → (rs strangers : List Request) (s : S) (m k : Bytes) → b.Sound s
      → eq_bytes id m ≡ false
      → none_matches strangers ≡ true
      → (b.contents (serve_all rs s) m k ≡ b.contents s m k) × (serve_all strangers s ≡ s)
  serve_all_isolates i rs strangers s m k sound other h =
      (all_isolated i rs s m k sound other, rejected_all strangers s h)
