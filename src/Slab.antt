-- ===== src/Slab.antt =====
-- tom_slab.h: the SLAB allocator.
pub mod Avail
pub mod Layout
pub mod State
pub mod Links
pub mod History
pub mod Alloc
pub mod Release
pub mod Free
pub mod Reset
pub mod Invariant
mod Tests
