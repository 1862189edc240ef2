-- ===== src/Rtree.antt =====
-- tom_rtree.h: boxes.
pub mod Box
pub mod Sort
pub mod Tree
mod Tests
