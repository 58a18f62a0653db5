-- ===== src/Smc/Tests.antt =====
-- Concrete runs of the emulated SMC, and the theorems at concrete inputs.
mod Device
mod Store
mod Ports
mod Plugins
mod Startup
