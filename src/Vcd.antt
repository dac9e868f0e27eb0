-- ===== src/Vcd.antt =====
-- pkg/vcd-client/client.go: the client of vCloud Director.
pub mod State
pub mod Text
pub mod Units
pub mod Find
pub mod Detach
pub mod Attach
pub mod Service
pub mod Session
pub mod Trace
pub mod Guard
pub mod Steps
