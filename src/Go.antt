-- ===== src/Go.antt =====
-- What the source uses of Go's standard library.
pub mod Base64
pub mod Strings
pub mod Utf8
pub mod Fmt
pub mod Strconv
