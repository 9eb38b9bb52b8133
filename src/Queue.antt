-- ===== src/Queue.antt =====
-- src/fastipc/data/named_queue.py: the modes of a named queue, its header, and how a queue is created.
pub mod Modes
pub mod Header
pub mod Created
mod Tests
