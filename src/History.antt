-- ===== src/History.antt =====
-- src/fastipc/data/named_history_buffer.py: a circular buffer of messages in shared memory.
pub mod Header
pub mod Buffer
pub mod Slot
pub mod Publish
pub mod Release
pub mod Log
pub mod Session
pub mod Reopen
pub mod Create
pub mod Meta
pub mod Accesses
pub mod Replayed
pub mod Racing
pub mod Overlap
pub mod Ordered
pub mod Untorn
pub mod Torn
pub mod Writers
pub mod Serial
pub mod Filling
pub mod Publishers
pub mod Crowd
pub mod Solo
pub mod Alone
pub mod Refined
pub mod Named
pub mod Agree
pub mod Held
pub mod Shared
mod Tests
mod RaceTests
mod TrafficTests
mod NamedTests
