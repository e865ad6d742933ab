-- ===== src/Go.antt =====
-- What the program uses of Go's own library.
pub mod Binary
pub mod Int64
pub mod Io
pub mod Map
pub mod Strconv
pub mod Strings
