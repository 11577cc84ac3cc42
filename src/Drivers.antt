-- ===== src/Drivers.antt =====
-- kernel/src/drivers and kernel/src/scheduling: the devices.
pub mod Ahci
pub mod Gfx
pub mod Kbd
pub mod Pci
pub mod Ports
pub mod Printf
pub mod Tty
pub mod Serial
