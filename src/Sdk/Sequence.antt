-- ===== src/Sdk/Sequence.antt =====
-- The order in which sdk/modulesdk/lifecycle.go calls a module, as a relation on its phases.
use weaveplatform_agent_core.Base.{
  ℕ, suc, ◌≤◌, String, Bool, true, false, not, Option, none, some, List, [], ◌∷◌, ◌==◌, ◌===◌,
  if-both, ◌≡◌, refl, sym, subst, arith,
}
use weaveplatform_agent_core.Sdk.{
  Phase, created, inited, started, stopped, Hook, init_hook, start_hook, stop_hook, ModuleServer,
  new_server, Binary, InitCall, Rpc, init_rpc, start_rpc, stop_rpc, health_rpc, shutdown_rpc,
  Served, run_init, connect, configure, init_in, start_in, stop_locked, shut_down, serve_rpc,
  serve_rpcs,
}

-- The histories of calls after which a module is in a phase: Init until it succeeds, once; then Start
-- until it succeeds, once; then Stop until it succeeds, once; and nothing after. A module that has not
-- started is stopped without a call.
pub data History : Phase → List Hook → Type 0 where
  fresh : History created []
  init_again : {hs : List Hook} → History created hs → History created (init_hook false ∷ hs)
  init_done : {hs : List Hook} → History created hs → History inited (init_hook true ∷ hs)
  start_again : {hs : List Hook} → History inited hs → History inited (start_hook false ∷ hs)
  start_done : {hs : List Hook} → History inited hs → History started (start_hook true ∷ hs)
  stop_again : {hs : List Hook} → History started hs → History started (stop_hook false ∷ hs)
  stop_done : {hs : List Hook} → History started hs → History stopped (stop_hook true ∷ hs)
  dropped_early : {hs : List Hook} → History created hs → History stopped hs
  dropped_idle : {hs : List Hook} → History inited hs → History stopped hs

-- Whether the connection to core is up in a phase: not before Init, and from Init to Stop.
abbrev pub IsConnected : Phase → Bool → Type 0
IsConnected created c = c ≡ false
IsConnected inited c = c ≡ true
IsConnected started c = c ≡ true
IsConnected stopped c = Unit

-- The jobs run only in a started module.
abbrev pub MayRun : Phase → Bool → Type 0
MayRun created j = j ≡ false
MayRun inited j = j ≡ false
MayRun started j = Unit
MayRun stopped j = j ≡ false

pub record IsOrderly (s : ModuleServer) : Type 0 where
  pub history : History s.phase s.hooks
  pub connection : IsConnected s.phase s.connected
  pub jobs : MayRun s.phase s.jobs_running

configured-IsOrderly :
    (call : InitCall) (s : ModuleServer)
    → s.phase ≡ created
    → IsOrderly s
    → IsOrderly (configure call s call.config_error).0
configured-IsOrderly call s e o = config call.config_error
  where
    history : History created s.hooks
    history = subst (λ p. History p s.hooks) e o.history

    ran : (ok : Bool) → IsOrderly (run_init ok s).0
    ran true = record {
      history = init_done history;
      connection = refl;
      jobs = subst (λ p. MayRun p s.jobs_running) e o.jobs;
    }
    ran false = record {
      history = subst (λ p. History p (init_hook false ∷ s.hooks)) (sym e) (init_again history);
      connection = subst (λ p. IsConnected p false) (sym e) refl;
      jobs = o.jobs;
    }

    connecting : (error : Option String) → IsOrderly (connect call s error).0
    connecting none = ran call.init_succeeds
    connecting (some why) = o

    config : (error : Option String) → IsOrderly (configure call s error).0
    config none = connecting call.connect_error
    config (some why) = o

init-IsOrderly :
    (bin : Binary) (call : InitCall) (s : ModuleServer) (p : Phase)
    → s.phase ≡ p
    → IsOrderly s
    → IsOrderly (init_in p bin call s).0
init-IsOrderly bin call s created e o =
    if-both (λ (r : Served). IsOrderly r.0) (not (call.module_id === bin.id)) _ _ (λ other. o)
      (λ same.
        if-both (λ (r : Served). IsOrderly r.0) (not (call.protocol == bin.protocol)) _ _
          (λ mismatch. o) (λ agreed. configured-IsOrderly call s e o))
init-IsOrderly bin call s inited e o = o
init-IsOrderly bin call s started e o = o
init-IsOrderly bin call s stopped e o = o

start-IsOrderly :
    (ok : Bool) (s : ModuleServer) (p : Phase)
    → s.phase ≡ p
    → IsOrderly s
    → IsOrderly (start_in p ok s).0
start-IsOrderly ok s created e o = o
start-IsOrderly true s inited e o = record {
  history = start_done (subst (λ p. History p s.hooks) e o.history);
  connection = subst (λ p. IsConnected p s.connected) e o.connection;
  jobs = tt;
}
start-IsOrderly false s inited e o = record {
  history =
      subst (λ p. History p (start_hook false ∷ s.hooks)) (sym e)
        (start_again (subst (λ p. History p s.hooks) e o.history));
  connection = o.connection;
  jobs = o.jobs;
}
start-IsOrderly ok s started e o = o
start-IsOrderly ok s stopped e o = o

stop-IsOrderly :
    (ok : Bool) (s : ModuleServer) (p : Phase)
    → s.phase ≡ p
    → IsOrderly s
    → IsOrderly (stop_locked p ok s).0
stop-IsOrderly ok s created e o = record {
  history = dropped_early (subst (λ p. History p s.hooks) e o.history);
  connection = tt;
  jobs = subst (λ p. MayRun p s.jobs_running) e o.jobs;
}
stop-IsOrderly ok s inited e o = record {
  history = dropped_idle (subst (λ p. History p s.hooks) e o.history);
  connection = tt;
  jobs = subst (λ p. MayRun p s.jobs_running) e o.jobs;
}
stop-IsOrderly true s started e o = record {
  history = stop_done (subst (λ p. History p s.hooks) e o.history);
  connection = tt;
  jobs = refl;
}
stop-IsOrderly false s started e o = record {
  history =
      subst (λ p. History p (stop_hook false ∷ s.hooks)) (sym e)
        (stop_again (subst (λ p. History p s.hooks) e o.history));
  connection = o.connection;
  jobs = subst (λ p. MayRun p false) (sym e) tt;
}
stop-IsOrderly ok s stopped e o = record {
  history = subst (λ p. History p s.hooks) e o.history;
  connection = tt;
  jobs = subst (λ p. MayRun p s.jobs_running) e o.jobs;
}

shut-IsOrderly : (r : Served) → IsOrderly r.0 → IsOrderly (shut_down r).0
shut-IsOrderly (s, some why) o = o
shut-IsOrderly (s, none) o = record {
  history = o.history;
  connection = o.connection;
  jobs = o.jobs;
}

serve_rpc-IsOrderly :
    (bin : Binary) (c : Rpc) (s : ModuleServer) → IsOrderly s → IsOrderly (serve_rpc bin c s).0
unfolding serve_rpc
serve_rpc-IsOrderly bin (init_rpc call) s o = init-IsOrderly bin call s s.phase refl o
serve_rpc-IsOrderly bin (start_rpc ok) s o = start-IsOrderly ok s s.phase refl o
serve_rpc-IsOrderly bin (stop_rpc ok) s o = stop-IsOrderly ok s s.phase refl o
serve_rpc-IsOrderly bin health_rpc s o = o
serve_rpc-IsOrderly bin (shutdown_rpc ok) s o =
    shut-IsOrderly (stop_locked s.phase ok s) (stop-IsOrderly ok s s.phase refl o)

-- How often Init and Start have succeeded.
unfoldable pub inits : List Hook → ℕ
inits [] = 0
inits (init_hook true ∷ hs) = suc (inits hs)
inits (init_hook false ∷ hs) = inits hs
inits (start_hook ok ∷ hs) = inits hs
inits (stop_hook ok ∷ hs) = inits hs

unfoldable pub starts : List Hook → ℕ
starts [] = 0
starts (start_hook true ∷ hs) = suc (starts hs)
starts (start_hook false ∷ hs) = starts hs
starts (init_hook ok ∷ hs) = starts hs
starts (stop_hook ok ∷ hs) = starts hs

abbrev inits_by : Phase → ℕ
inits_by created = 0
inits_by inited = 1
inits_by started = 1
inits_by stopped = 1

abbrev starts_by : Phase → ℕ
starts_by created = 0
starts_by inited = 0
starts_by started = 1
starts_by stopped = 1

at_most_once :
    (p : Phase) (hs : List Hook)
    → History p hs
    → (inits hs ≤ inits_by p) × (starts hs ≤ starts_by p)
unfolding inits starts
at_most_once p hs fresh = (omega arith, omega arith)
at_most_once p hs (init_again h) = at_most_once _ _ h
at_most_once p hs (init_done h) =
    let b = at_most_once _ _ h in (omega (arith, b.0), omega (arith, b.1))
at_most_once p hs (start_again h) = at_most_once _ _ h
at_most_once p hs (start_done h) =
    let b = at_most_once _ _ h in (omega (arith, b.0), omega (arith, b.1))
at_most_once p hs (stop_again h) = at_most_once _ _ h
at_most_once p hs (stop_done h) = at_most_once _ _ h
at_most_once p hs (dropped_early h) =
    let b = at_most_once _ _ h in (omega (arith, b.0), omega (arith, b.1))
at_most_once p hs (dropped_idle h) =
    let b = at_most_once _ _ h in (omega (arith, b.0), omega (arith, b.1))

once_in_all : (p : Phase) → (inits_by p ≤ 1) × (starts_by p ≤ 1)
once_in_all created = (omega arith, omega arith)
once_in_all inited = (omega arith, omega arith)
once_in_all started = (omega arith, omega arith)
once_in_all stopped = (omega arith, omega arith)

serve_rpcs-IsOrderly :
    (bin : Binary) (cs : List Rpc) (s : ModuleServer)
    → IsOrderly s
    → IsOrderly (serve_rpcs bin cs s)
unfolding serve_rpcs
serve_rpcs-IsOrderly bin [] s o = o
serve_rpcs-IsOrderly bin (c ∷ cs) s o =
    serve_rpcs-IsOrderly bin cs (serve_rpc bin c s).0 (serve_rpc-IsOrderly bin c s o)

-- Whatever calls core makes of a new module server, in whatever order, and whichever of them fail: the
-- module is initialized successfully at most once and started successfully at most once, its calls are
-- a history of the phase it is in, its jobs run in no other phase than started, and from a successful
-- Init until a Stop it is connected to core, and not before.
pub serve_rpcs_in_order :
    (bin : Binary) (cs : List Rpc)
    → IsOrderly (serve_rpcs bin cs new_server)
      × (inits (serve_rpcs bin cs new_server).hooks ≤ 1)
      × (starts (serve_rpcs bin cs new_server).hooks ≤ 1)
serve_rpcs_in_order bin cs =
    let o =
      serve_rpcs-IsOrderly bin cs new_server
        (record { history = fresh; connection = refl; jobs = refl }) in
    let s = serve_rpcs bin cs new_server in
    let b = at_most_once s.phase s.hooks o.history in
    let c = once_in_all s.phase in (o, omega (arith, b.0, c.0), omega (arith, b.1, c.1))
