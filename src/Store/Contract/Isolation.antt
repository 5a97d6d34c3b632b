-- ===== src/Store/Contract/Isolation.antt =====
-- What a module's calls may do to another's namespace: the promise of internal/store/store.go.
use weaveplatform_agent_core.Base.{
  Bool, true, false, not, List, all, eq_bytes, ◌≡◌, refl, ◌∙◌, arith,
}
use weaveplatform_agent_core.Store.{Bytes, Op, get, put, delete, list, Call, Reply}
use weaveplatform_agent_core.Store.Contract.{
  Contents, effect, Allowed, carried_out, refused, Run, rest, next, Backend, Implements, answer_all,
  answer_all-Run,
}

-- No call of the list is made in the namespace.
abbrev pub none_in : Bytes → List Call → Bool
none_in m calls = all (λ call. not (eq_bytes call.module_id m)) calls

elsewhere :
    (m' m k : Bytes) (op : Op) (c : Contents) → eq_bytes m' m ≡ false → effect m' op c m k ≡ c m k
unfolding effect
elsewhere m' m k (get j) c other = refl
elsewhere m' m k (put j v) c other = ground arith
elsewhere m' m k (delete j) c other = ground arith
elsewhere m' m k (list p) c other = refl

pub step_isolates :
    (m' m k : Bytes) (op : Op) (r : Reply) (c c' : Contents)
    → Allowed c c' m' op r
    → eq_bytes m' m ≡ false
    → c' m k ≡ c m k
step_isolates m' m k op r c c' (carried_out a e) other = e m k ∙ elsewhere m' m k op c other
step_isolates m' m k op r c c' (refused why a e) other = e m k

untouched_after_all :
    (m k : Bytes) (calls : List Call) (rs : List Reply) (c c' : Contents)
    → Run c calls rs c'
    → none_in m calls ≡ true
    → c' m k ≡ c m k
untouched_after_all m k calls rs c c' rest h = refl
untouched_after_all m k calls rs c c' (next {call = call} {calls = later} {r = r} {c' = mid} a run)
      h =
    untouched_after_all m k later _ mid c' run (ground arith)
    ∙ step_isolates call.module_id m k call.op r c mid a (ground arith)

-- Of a backend that implements the contract, in a sound state: calls that are all made in other
-- namespaces, however many and whatever they are answered, leave every key of a namespace as it was.
pub answer_all_isolates :
    {S : Type 0} (b : Backend S)
    → Implements b
    → (calls : List Call) (s : S) (m k : Bytes) → b.Sound s
    → none_in m calls ≡ true
    → b.contents (answer_all b calls s).0 m k ≡ b.contents s m k
answer_all_isolates b i calls s m k sound h =
    untouched_after_all m k calls (answer_all b calls s).1 (b.contents s)
      (b.contents (answer_all b calls s).0) (answer_all-Run b i calls s sound) h
