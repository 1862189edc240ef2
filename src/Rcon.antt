-- ===== src/Rcon.antt =====
-- tom_rcon.h: the RCON server.
pub mod Bytes
pub mod Secret
pub mod Error
pub mod State
pub mod Send
pub mod Port
pub mod History
pub mod Tcp
pub mod Wait
pub mod Fetch
pub mod Complete
mod Tests
