-- ===== src/Pipeline.antt =====
-- examples/dplane_pipeline.c: five nodes that pass packets along six paths, over channels with one
-- producer and one consumer each, and the accounts that the main thread keeps of them.
pub mod Topology
pub mod Plane
pub mod Route
pub mod Flight
pub mod Moves
pub mod Ends
pub mod Accounts
pub mod Order
pub mod Edges
pub mod Schedule
pub mod Latency
pub mod Stamps
pub mod Totals
pub mod Exit
pub mod Jam
pub mod Modes
pub mod Idle
pub mod PathList
pub mod Checker
pub mod Nodes
pub mod Args
pub mod Usable
mod Tests
