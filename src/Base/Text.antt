-- ===== src/Base/Text.antt =====
-- Text by code points: the functions of `str` that the program splits, strips and joins text with.
mod Split
mod Strip
mod Trim
mod Decimal
unfoldable pub use Split.*
unfoldable pub use Strip.*
unfoldable pub use Trim.*
unfoldable pub use Decimal.*
