-- ===== src/Sync.antt =====
-- src/fastipc/sync: named objects for several processes.
pub mod NamedMutex
pub mod MutexCycle
pub mod WithMutex
pub mod NamedSemaphore
pub mod SemaphoreStart
pub mod NamedEvent
pub mod EventCycle
mod Tests
