-- ===== src/Fields.antt =====
-- The standard algorithms by which requests and responses keep their headers and cookies
-- (`std::find_if`, `std::any_of`, `std::remove_if`, `push_back`), and `std::unordered_map` from
-- texts, as an association list with each key once.
mod Vector
mod Table
mod Values
unfoldable pub use Vector.*
unfoldable pub use Table.*
pub use Values.*
