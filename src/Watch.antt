-- ===== src/Watch.antt =====
-- src/supervisor.c: `supervisor` with its loop over the events of the cgroup, the timer, the spawner
-- and the pipes.
pub mod State
pub mod Checks
pub mod Loop
pub mod Start
pub mod Conclude
pub mod Messages
pub mod Verdicts
pub mod Steady
pub mod Reset
pub mod Attach
pub mod Setup
pub mod Fits
pub mod Rounds
