-- ===== src/Storage.antt =====
-- src/storage.c: rows of text in `.data` files.
pub mod Fields
pub mod Lines
pub mod Table
