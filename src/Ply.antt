-- ===== src/Ply.antt =====
-- tom_ply.h: the header of PLY files.
pub mod Types
pub mod Memory
pub mod Token
pub mod Header
pub mod Access
pub mod Scalar
pub mod Stream
pub mod Callbacks
pub mod Cast
mod Tests
