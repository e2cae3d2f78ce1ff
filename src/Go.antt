-- ===== src/Go.antt =====
-- What the program uses of the Go language and its standard library: panics, strconv, strings.
pub mod Outcome
pub mod Int64
pub mod Strconv
pub mod Strings
