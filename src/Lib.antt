-- ===== src/Lib.antt =====
-- Verification of the weave agent core: the daemon that fetches, verifies, launches and supervises
-- modules, and serves them its host services.
--
-- How the parts interact: a channel manifest is fetched and its chain of signatures verified; the
-- entry of a module names the binary, which is downloaded, staged, checked by the verifier and
-- promoted into the install tree; promotion asks the supervisor to replace the running module and
-- waits at a health gate, and restores the old version on failure; the supervisor's loop launches
-- the module, polls its health and dampens its crashes; modules see each other over the event bus,
-- get policy documents, keep data in an encrypted store, each in its own namespace, and talk to the
-- outside over the transport, whose offline queue lives in that store and whose peer on the host is
-- the authenticated hypervisor channel. The device's identity is kept in the store as well. The boot
-- supervisor runs the core itself, promotes a staged one and reverts one that keeps crashing.
--
-- The files:
--   Base: shared helpers; numbers are the native ones, maps are association lists, texts of which
--     bytes matter are read by `codes`. Tests, Lists, Maps.
--   Manifest: sdk/manifest/manifest.go and sdk/manifest/channel.go. `validate`, `check_channel`,
--     `module_of`, `artifact_for`, `module_manifest`; Manifest.Pattern has the regular expressions.
--   Capability: `Set.Has` of internal/capability/probe.go.
--   Verify: sdk/manifest/sig.go and internal/manifestverify/verify.go; Verify.Channel the verifier
--     of internal/verify/channel.go. Ed25519, SHA-256, base64 and JSON are the fields of `Crypto`.
--   Supervise: internal/supervise/supervisor.go. Monitor is `monitor` and `pollHealth`, Loop is
--     `run` with the start limit, Registry is `Add`, `StopModule`, `Replace`, `Keepalive` and the
--     loops behind its entries, Registry.History their sequences.
--   Lifecycle: internal/lifecycle/lifecycle.go. Gate is `healthGate`, Disk the tree of versions and
--     `activate`, Promote is `promote` and `Rollback`, Fetch is `fetchChannel` and `download`,
--     Install is `stageFiles`, `InstallLocal` and `Install`. Answers of the operating system, the
--     clock and the network are records of inputs; an I/O error is one of their values,
--     and so is what a deletion leaves whose error the source ignores.
--   HvChannel: sdk/hvchannel and internal/transport/hypervisor.go, hypervisor_auth.go. Frame is the
--     framing on bytes, Auth the handshake, Peer the read loop and the gate.
--   Policy: internal/policy/policy.go. EventBus: internal/eventbus/bus.go with the authorization
--     of internal/hostserv/hostserv.go.
--   Store: internal/store/store.go and `MemStore` of internal/hostserv/memory.go. Store and
--     Store.Contract are the interface `StoreBackend` of internal/hostserv/hostserv.go, its calls and
--     its contract as a relation on contents; Memory is `MemStore`, Sealed the encrypted store, Key
--     `loadOrCreateKey`, Service `tokenGate` and `storeServer`. bbolt, the AEAD and the protector
--     are records of functions, and what the store relies on is in `BoltLaws`, `AeadLaws` and
--     `Protects`.
--   Transport: internal/transport/transport.go. Keys has the keys of the offline queue and their
--     order, Queue `Send`, `flush`, `enqueue`, `enforceCap` and `seedNextIDLocked` over any backend
--     of the store, Inbound `Receive` and `deliver`. A peer is a function of what was tried on it.
--   Handshake: sdk/handshake/handshake.go. Launch: internal/supervise/launch.go, with the outcome of
--     each call in `World` and what launch does as a list of effects; Launch.Capture is `lineCapture`.
--   Identity: internal/identity/identity.go, over any backend of the store; HTTP, JSON, base64 and
--     Ed25519 are the fields of `Wire` and `Server`.
--   Sdk: sdk/modulesdk/lifecycle.go, the server that a module runs for core's calls.
--   Boot: internal/weaveboot/weaveboot.go, `promoteStaged` and `revert`, and in Boot.Run the loop of
--     `Run`; the order of versions is a parameter.
--
-- Bounds and fuel: loops run over lists of what the environment answers, so no fuel is needed, but
-- for `read_frames`, where any fuel above the number of frames is enough. A decimal has at most 20
-- places, enough for 64 bits. 32-bit and 64-bit counters wrap (`% 2 ^ 32`, `% 2 ^ 64`).
--
-- Not modelled: gRPC and generated code, file copying, HTTP, log output, operating-system backends
-- with their privileges and process containment, the command lines; the interleaving of concurrent
-- calls of one component (the calls are taken one after the other, also where the source holds no
-- lock across a whole call, as in `fetchChannel`, `enqueue` and `Enroll`); the wiring of the agent, the control socket and
-- the rest of the SDK that modules run.
mod Base
pub mod Boot
pub mod Capability
pub mod EventBus
pub mod Handshake
pub mod HvChannel
pub mod Identity
pub mod Launch
pub mod Lifecycle
pub mod Manifest
pub mod Policy
pub mod Sdk
pub mod Store
pub mod Supervise
pub mod Transport
pub mod Verify
