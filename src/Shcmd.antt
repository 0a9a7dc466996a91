-- ===== src/Shcmd.antt =====
-- The remote command daemon, shcmd/src/shcmd.c.
pub mod Slot
pub mod Json
pub mod Access
pub mod Params
pub mod Request
mod Tests
