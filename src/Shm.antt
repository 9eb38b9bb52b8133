-- ===== src/Shm.antt =====
-- src/fastipc/guarded_shared_memory.py: named shared memory that the last process to leave removes.
-- `World` is what the operating system keeps, `Open` the constructor, `Close` the way out.
pub mod World
pub mod Open
pub mod Close
pub mod Attempts
pub mod Quiet
pub mod Refusals
pub mod Leave
pub mod LastLeave
pub mod Refused
pub mod Library
pub mod Overtaken
pub mod Among
mod Tests
mod AmongTests
