-- ===== src/Smc.antt =====
-- The emulated SMC of fakesmc/.
pub mod Key
pub mod Device
pub mod Store
pub mod Port
pub mod Io
pub mod Platform
pub mod Load
pub mod Message
pub mod Model
pub mod Setup
mod Tests
