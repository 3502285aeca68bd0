-- ===== src/Text.antt =====
-- Rust's string operations that the source uses, over bytes: UTF-8, numbers, lines and pieces,
-- white space, and search. They are the standard library's, written out.
pub mod Utf8
pub mod Lines
pub mod Number
pub mod Pieces
pub mod Space
pub mod Find
pub mod Cut
