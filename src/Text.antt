-- ===== src/Text.antt =====
-- Text as the list of its code points, with the parts of Rust's `str` that the program uses.
-- A byte test that accepts ASCII only gives the same answer on code points, since every byte of a
-- longer UTF-8 sequence is at least 0x80.
mod Equal
mod Chars
mod Split
pub mod Trim
pub mod Dict
pub mod Order
pub mod Decimal
pub mod Words
unfoldable pub use Equal.*
unfoldable pub use Chars.*
unfoldable pub use Split.*
