-- ===== src/Tests.antt =====
-- The theorems at concrete inputs, and runs of the definitions.
mod Kernels
mod Responses
mod Counters
mod Sinks
mod Passes
mod Requests
mod Events
mod Maps
mod Networks
mod Mountings
mod Cgroups
mod Slots
mod Preparations
mod Tasks
mod Strays
mod Processes
