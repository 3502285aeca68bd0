-- ===== src/Util.antt =====
-- src/util.rs: hexadecimal, the escaping of stored fields, query strings, the comparison of
-- tokens, random numbers and the atomic write; Framed has the columns of the files of rows.
pub mod Hex
pub mod Pct
pub mod Compare
pub mod Form
pub mod Query
pub mod Json
pub mod JsonReader
pub mod Framed
pub mod Random
pub mod Atomic
mod Tests
