-- ===== src/Sdk/Tests.antt =====
-- A module that core initializes twice and stops before its start.
use weaveplatform_agent_core.Base.{◌≤◌, true, false, none, [], ◌∷◌, List}
use weaveplatform_agent_core.Sdk.{
  Binary, InitCall, Rpc, init_rpc, start_rpc, stop_rpc, new_server, serve_rpcs,
}
use weaveplatform_agent_core.Sdk.Sequence.{IsOrderly, inits, starts, serve_rpcs_in_order}

abbrev sysinfo : Binary
sysinfo = record { id = "sysinfo"; protocol = 1 }

abbrev first_init : InitCall
first_init = record {
  module_id = "sysinfo";
  protocol = 1;
  config_error = none;
  connect_error = none;
  init_succeeds = true;
}

abbrev calls : List Rpc
calls = init_rpc first_init ∷ init_rpc first_init ∷ start_rpc true ∷ stop_rpc false ∷ []

serve_rpcs_in_order_example :
    IsOrderly (serve_rpcs sysinfo calls new_server)
    × (inits (serve_rpcs sysinfo calls new_server).hooks ≤ 1)
    × (starts (serve_rpcs sysinfo calls new_server).hooks ≤ 1)
serve_rpcs_in_order_example = serve_rpcs_in_order sysinfo calls
