-- ===== src/SuperIo.antt =====
-- The sensors behind a Super I/O chip: utils/utils.h and plugins/SuperIOSensors/.
pub mod Codec
pub mod Encode
pub mod Bus
pub mod Long
pub mod Sensor
pub mod Monitor
pub mod Own
pub mod Config
pub mod Fintek
pub mod Ite
pub mod Winbond
pub mod Nsc
mod Tests
