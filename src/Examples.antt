-- ===== src/Examples.antt =====
-- Runs of the theorems at concrete inputs.
mod Wire
mod State
mod Identifiers
mod Buffers
mod Streams
mod Packets
mod Params
mod Losses
mod Paths
