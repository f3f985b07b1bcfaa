-- ===== src/Actions.antt =====
-- internal/actions/actions.go: the write side. Verbs, jobs and their steps, the calls that reach
-- libvirt and the middleware, the job runner, the registry, and the sweep for frozen guests.
pub mod Verb
pub mod Job
pub mod Effects
pub mod Guest
pub mod Restore
pub mod Snapshot
pub mod Runner
pub mod Registry
pub mod Sweep
