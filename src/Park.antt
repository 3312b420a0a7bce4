-- ===== src/Park.antt =====
-- src/park.c and src/util.c: how a thread waits until another one wakes it, in the two builds.
pub mod Spin
pub mod Times
pub mod Schedule
pub mod Futex
pub mod Sleep
pub mod Pthread
pub mod Signal
pub mod Wakeup
pub mod Deadline
mod Tests
