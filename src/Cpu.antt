-- ===== src/Cpu.antt =====
-- The sensors of the processor: plugins/CPUSensors/.
pub mod Float
pub mod Intel
mod Tests
