-- ===== src/SuperIo/Ite.antt =====
-- plugins/SuperIOSensors/ITE87x/: the monitor for the chips of ITE.
pub mod Registers
pub mod Class
pub mod Start
pub mod Laws
pub mod Control
pub mod Probe
