-- ===== src/Lifecycle.antt =====
-- internal/lifecycle/lifecycle.go: fetch, verify, stage, promote behind a health gate, N-1
-- retention, rollback. One module id is modelled: `lockModule` runs the operations of an id one at a
-- time. The operating system's answers enter as the `Faults` of a call; a marker file is modelled by
-- its trimmed text, and the JSON of a staged manifest by the manifest (`none` where Load refuses it).
pub mod Gate
pub mod Disk
pub mod Promote
pub mod Fetch
pub mod Install
pub mod Samples
mod Tests
