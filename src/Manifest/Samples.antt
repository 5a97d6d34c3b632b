-- ===== src/Manifest/Samples.antt =====
-- Manifests that tests use.
use weaveplatform_agent_core.Base.{String, [], ◌∷◌}
use weaveplatform_agent_core.Manifest.{Manifest, ChannelModule, ChannelManifest, absent}

abbrev pub sysinfo : Manifest
sysinfo = record {
  schema = 1;
  id = "sysinfo";
  version = "1.2.3-rc.1";
  protocol = 1;
  zone = "A";
  privilege = "service";
  session = "system";
  platforms = record { os = "linux"; arch = "amd64" } ∷ [];
  capabilities = [];
  subscribes = [];
  artifacts = [];
}

abbrev pub digest : String
digest = "sha256:0123456789abcdef0123456789abcdef0123456789abcdef0123456789abcdef"

abbrev pub sysinfo_entry : ChannelModule
sysinfo_entry = record {
  id = "sysinfo";
  version = "1.2.3-rc.1";
  protocol = 1;
  privilege = "service";
  session = "system";
  capabilities = [];
  subscribes = [];
  artifacts = record { os = "linux"; arch = "amd64"; url = "u"; digest = digest; size = 3 } ∷ [];
}

abbrev pub stable : ChannelManifest
stable = record {
  schema = 1;
  channel = "stable";
  sequence = 7;
  expires = absent;
  protocol_min = 1;
  protocol_max = 2;
  modules = sysinfo_entry ∷ [];
}
