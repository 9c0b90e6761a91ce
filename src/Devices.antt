-- ===== src/Devices.antt =====
-- pkg/devices: paired devices and the codes that pair them.
pub mod Store
pub mod Pairing
