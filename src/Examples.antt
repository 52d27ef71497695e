-- ===== src/Examples.antt =====
-- The theorems at concrete inputs: small states of the components.
pub mod Memory
pub mod Scheduling
pub mod Network
pub mod Files
pub mod Devices
pub mod Printing
pub mod Startup
pub mod Text
pub mod Symbols
pub mod Disks
