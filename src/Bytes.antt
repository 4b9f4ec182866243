-- ===== src/Bytes.antt =====
-- Go strings: sequences of bytes, compared byte by byte as the operators `==` and `<` do, and the searches
-- of the package `strings`.
mod Defs
mod Order
mod Find
mod Decimal
unfoldable pub use Defs.*
pub use Order.*
unfoldable pub use Find.*
unfoldable pub use Decimal.*
