-- ===== src/Nptree.antt =====
-- src/fastipc/nptree/schema.py: layouts of trees of arrays, and their transfer through one buffer.
-- `Numpy` and `Optree` state what the module takes from the two packages that it imports.
pub mod Numpy
pub mod Optree
pub mod Layout
pub mod Transfer
pub mod Desc
pub mod Laid
pub mod Copies
pub mod RoundTrip
pub mod Offsets
pub mod Refusals
mod Tests
pub mod Alignment
