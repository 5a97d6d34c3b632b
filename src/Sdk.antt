-- ===== src/Sdk.antt =====
-- The module's side of the lifecycle: sdk/modulesdk/lifecycle.go. A call's outcome on the module
-- (`Init`, `Start`, `Stop` of the Module interface) and on the connection to core is an input.
pub mod Sequence
mod Tests
use weaveplatform_agent_core.Base.{
  ℕ, String, Bool, true, false, not, Option, none, some, List, [], ◌∷◌, ◌==◌, ◌===◌, if◌then◌else◌,
}

-- moduleState
pub data Phase : Type 0 where
  created inited started stopped : Phase

-- A call of the Module interface, and whether it returned no error.
pub data Hook : Type 0 where
  init_hook : Bool → Hook
  start_hook : Bool → Hook
  stop_hook : Bool → Hook

pub record ModuleServer : Type 0 where
  pub phase : Phase
  -- s.host is set
  pub connected : Bool
  pub jobs_running : Bool
  -- the shutdown channel, of one place, is full
  pub exiting : Bool
  -- the calls of the module, the latest first
  pub hooks : List Hook

abbrev pub new_server : ModuleServer
new_server = record {
  phase = created;
  connected = false;
  jobs_running = false;
  exiting = false;
  hooks = [];
}

-- The module's id and the protocol that it was built for.
pub record Binary : Type 0 where
  pub id : String
  pub protocol : ℕ

-- An Init request, with the errors of SetConfig and connectHost and whether the module's Init succeeds.
pub record InitCall : Type 0 where
  pub module_id : String
  pub protocol : ℕ
  pub config_error : Option String
  pub connect_error : Option String
  pub init_succeeds : Bool

-- The calls that core makes; the Booleans say whether the module's own call succeeds.
pub data Rpc : Type 0 where
  init_rpc : InitCall → Rpc
  start_rpc : Bool → Rpc
  stop_rpc : Bool → Rpc
  health_rpc : Rpc
  shutdown_rpc : Bool → Rpc

abbrev pub Served : Type 0
Served = ModuleServer × Option String

-- The module's Init, on a connection; a failure closes it again.
abbrev pub run_init : Bool → ModuleServer → Served
run_init true s =
    (record s { phase = inited; connected = true; hooks = init_hook true ∷ s.hooks }, none)
run_init false s =
    (record s { connected = false; hooks = init_hook false ∷ s.hooks }, some "module init")

abbrev pub connect : InitCall → ModuleServer → Option String → Served
connect call s (some why) = (s, some why)
connect call s none = run_init call.init_succeeds s

abbrev pub configure : InitCall → ModuleServer → Option String → Served
configure call s (some why) = (s, some why)
configure call s none = connect call s call.connect_error

abbrev pub init_created : Binary → InitCall → ModuleServer → Served
init_created bin call s =
    if not (call.module_id === bin.id)
    then (s, some "module identity mismatch")
    else if not (call.protocol == bin.protocol)
    then (s, some "protocol mismatch")
    else configure call s call.config_error

abbrev pub init_in : Phase → Binary → InitCall → ModuleServer → Served
init_in created bin call s = init_created bin call s
init_in inited bin call s = (s, some "Init called twice")
init_in started bin call s = (s, some "Init called twice")
init_in stopped bin call s = (s, some "Init called twice")

abbrev pub start_inited : Bool → ModuleServer → Served
start_inited true s =
    (record s { phase = started; jobs_running = true; hooks = start_hook true ∷ s.hooks }, none)
start_inited false s = (record s { hooks = start_hook false ∷ s.hooks }, some "module start")

abbrev pub start_in : Phase → Bool → ModuleServer → Served
start_in inited ok s = start_inited ok s
start_in created ok s = (s, some "Start")
start_in started ok s = (s, some "Start")
start_in stopped ok s = (s, some "Start")

-- The jobs are stopped before the module, whose failure leaves the state as it is.
abbrev pub stop_started : Bool → ModuleServer → Served
stop_started true s =
    (record s { phase = stopped; jobs_running = false; hooks = stop_hook true ∷ s.hooks }, none)
stop_started false s =
    (record s { jobs_running = false; hooks = stop_hook false ∷ s.hooks }, some "module stop")

-- `stopLocked`
abbrev pub stop_locked : Phase → Bool → ModuleServer → Served
stop_locked created ok s = (record s { phase = stopped }, none)
stop_locked inited ok s = (record s { phase = stopped }, none)
stop_locked stopped ok s = (record s { phase = stopped }, none)
stop_locked started ok s = stop_started ok s

abbrev pub shut_down : Served → Served
shut_down (s, some why) = (s, some why)
shut_down (s, none) = (record s { exiting = true }, none)

unfoldable pub serve_rpc : Binary → Rpc → ModuleServer → Served
serve_rpc bin (init_rpc call) s = init_in s.phase bin call s
serve_rpc bin (start_rpc ok) s = start_in s.phase ok s
serve_rpc bin (stop_rpc ok) s = stop_locked s.phase ok s
serve_rpc bin health_rpc s = (s, none)
serve_rpc bin (shutdown_rpc ok) s = shut_down (stop_locked s.phase ok s)

unfoldable pub serve_rpcs : Binary → List Rpc → ModuleServer → ModuleServer
serve_rpcs bin [] s = s
serve_rpcs bin (c ∷ cs) s = serve_rpcs bin cs (serve_rpc bin c s).0
