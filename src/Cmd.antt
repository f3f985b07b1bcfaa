-- ===== src/Cmd.antt =====
-- cmd/pademelon/main.go: the resolution of flags and environment with its refusals, the poll loop,
-- the probe of a running instance and the choice of the logger.
pub mod Flags
pub mod Start
pub mod Wiring
pub mod Loop
