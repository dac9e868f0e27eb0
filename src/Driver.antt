-- ===== src/Driver.antt =====
-- internal/driver: the CSI driver.
pub mod State
pub mod Capacity
pub mod Capabilities
pub mod Create
pub mod Publish
pub mod Expand
pub mod Info
pub mod Node
pub mod Client
pub mod Runs
pub mod Session
pub mod Threads
