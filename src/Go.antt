-- ===== src/Go.antt =====
-- What the program uses of Go: 64-bit integers, error values, calls that return a value or an
-- error and may panic, and texts.
pub mod Int
pub mod Error
pub mod Exec
