-- ===== src/Mpsc.antt =====
-- examples/dplane_pipeline_mpsc.c: the data-plane pipeline with one inbox for each node.
pub mod Boxes
pub mod Links
pub mod Follows
pub mod Schedule
pub mod Exit
pub mod Traffic
pub mod Sends
pub mod Loops
pub mod Delivers
pub mod Counts
pub mod Halts
pub mod Nodes
pub mod Jam
pub mod Scene
pub mod Stuck
pub mod Filling
pub mod Standstill
mod Tests
