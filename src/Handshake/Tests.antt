-- ===== src/Handshake/Tests.antt =====
-- The handshake on concrete lines.
use weaveplatform_agent_core.Base.{codes, inr, ◌≡◌, refl, arith}
use weaveplatform_agent_core.Handshake.{Line, network_pipe, format, parse, parsed, trim_right}
use weaveplatform_agent_core.Handshake.RoundTrip.{no_bar, parse-format}

abbrev windows_line : Line
windows_line = record { protocol = 2; network = network_pipe; addr = codes "weave-mod" }

parse-format_example : parse (format windows_line) ≡ parsed windows_line
unfolding no_bar trim_right
parse-format_example = parse-format windows_line (record {
  protocol_positive = omega arith;
  protocol_32_bits = omega arith;
  network_known = inr refl;
  addr_full = refl;
  addr_no_bar = refl;
  addr_trimmed = refl;
})
