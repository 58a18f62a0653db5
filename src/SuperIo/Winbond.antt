-- ===== src/SuperIo/Winbond.antt =====
-- plugins/SuperIOSensors/WinbondW836x/: the monitor for the chips of Winbond and Nuvoton.
pub mod Models
pub mod Bits
pub mod Fans
pub mod Class
