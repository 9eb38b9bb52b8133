-- ===== src/Primitives.antt =====
-- src/fastipc/_primitives/_primitives.c: the mutex and the semaphore, on 64 bytes of shared memory each.
pub mod Mutex
pub mod Cycle
pub mod Timed
pub mod SelfWait
pub mod Futex
pub mod Interleaved
pub mod Exclusion
pub mod Clobbered
pub mod Semaphore
pub mod Tokens
pub mod Atomics
pub mod AtomicWords
pub mod Tally
pub mod Conserved
pub mod Unwoken
mod Tests
mod Schedules
mod WordTests
mod CrowdTests
