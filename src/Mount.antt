-- ===== src/Mount.antt =====
-- internal/mount/mounter.go: formatting and mounting on the node.
pub mod Text
pub mod Host
pub mod Commands
pub mod Disks
pub mod Statistics
pub mod Handler
pub mod Trace
pub mod Blank
