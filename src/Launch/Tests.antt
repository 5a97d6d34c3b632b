-- ===== src/Launch/Tests.antt =====
-- A launch that succeeds, and a first line that arrives in pieces.
use weaveplatform_agent_core.Base.{
  false, none, some, [], ◌∷◌, codes, ◌≡◌, refl, arith, lookup, eq_bytes,
}
use weaveplatform_agent_core.Handshake.{
  Line, network_unix, contains, parse, split_bar, trim_space, trim_left, trim_right, value_of,
  parse_uint,
}
use weaveplatform_agent_core.Launch.{
  first_line_is, init_requires, World, Harness, launch, stop, kill, missing_caps,
}
use weaveplatform_agent_core.Launch.Held.{held, nothing, everything, due, launch_releases}
use weaveplatform_agent_core.Launch.Checked.{IsConfirmed, launch_confirms}
use weaveplatform_agent_core.Launch.Capture.{write_chunks, new_capture, newline, first_line_sent}

abbrev quiet : World
quiet = record {
  verify_error = none;
  remove_error = none;
  mkdir_error = none;
  rand_error = none;
  listen_error = none;
  prepare_error = none;
  privilege_error = none;
  exec_error = none;
  post_spawn_error = none;
  first = first_line_is (codes "WEAVE|1|1|unix|/run/m.sock");
  dial_error = none;
  init_answer = init_requires ("hypervisor.kvm" ∷ []);
  start_error = none;
}

abbrev harness : Harness
harness = record { window = record { min = 1; max = 2 }; caps = ("hypervisor.kvm", []) ∷ [] }

abbrev answered : Line
answered = record { protocol = 1; network = network_unix; addr = codes "/run/m.sock" }

launch_releases_example :
    (held (launch quiet harness).trace nothing ≡ due (launch quiet harness).verdict)
    × (held (stop false) everything ≡ nothing)
    × (held kill everything ≡ nothing)
launch_releases_example = launch_releases quiet harness false

launch_confirms_example : (quiet.verify_error ≡ none) × IsConfirmed quiet harness answered
unfolding launch parse split_bar trim_space trim_left trim_right value_of parse_uint eq_bytes
    contains missing_caps lookup
launch_confirms_example = launch_confirms quiet harness answered refl

first_line_sent_example :
    (write_chunks ((1 ∷ []) ∷ (2 ∷ newline ∷ 3 ∷ []) ∷ []) (new_capture 4)).sent ≡ some (1 ∷ 2 ∷ [])
first_line_sent_example =
    first_line_sent 4 ((1 ∷ []) ∷ (2 ∷ newline ∷ 3 ∷ []) ∷ []) (1 ∷ 2 ∷ []) (3 ∷ []) refl
      (omega arith) refl
