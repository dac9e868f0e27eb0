-- ===== src/Tests.antt =====
-- The theorems at concrete inputs, and runs of the code at them.
mod Fixtures
mod Client
mod Controller
mod Node
mod Values
mod Service
mod Threads
mod Goroutines
