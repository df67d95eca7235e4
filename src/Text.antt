-- ===== src/Text.antt =====
-- Byte strings, and what the framework uses of `std::string`, `std::string_view`, `<cctype>`,
-- `std::getline`, `operator>>` and the number conversions. A byte is a number below 256.
mod Strings
mod Search
mod Space
mod Number
mod Pieces
mod Lines
mod Decimal
unfoldable pub use Strings.*
unfoldable pub use Search.*
unfoldable pub use Space.*
unfoldable pub use Number.*
unfoldable pub use Pieces.*
unfoldable pub use Lines.*
pub use Decimal.*
