-- ===== src/Text.antt =====
-- Rust's `str` and `[u8]` operations that the program calls, over the bytes of a text.
-- A `String` is the list of its UTF-8 bytes, as it is in Rust.
pub mod Search
pub mod Occurs
pub mod Space
pub mod Utf8
pub mod Decimal
pub mod Lines
pub mod Sizes
unfoldable pub use Search.*
unfoldable pub use Space.*
unfoldable pub use Utf8.*
unfoldable pub use Decimal.*
unfoldable pub use Lines.*
pub use Sizes.*
