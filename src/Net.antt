-- ===== src/Net.antt =====
-- Addresses, texts and byte orders of Rust's standard library, as the packets use them.
mod Address
pub mod Utf8
pub mod BigEndian
pub mod Cursor
pub mod Hex
pub mod Socket
pub mod Blank
pub mod Decimal
unfoldable pub use Address.*
