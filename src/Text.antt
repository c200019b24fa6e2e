-- ===== src/Text.antt =====
-- Python's `str` as a list of code points, with the methods that the program calls. The texts are
-- ASCII where a method depends on it (`lower`, `strip`, `split`, `isdigit`).
mod Chars
mod Strip
mod Split
mod Decimal
mod Joined
unfoldable pub use Chars.*
unfoldable pub use Strip.*
unfoldable pub use Split.*
unfoldable pub use Decimal.*
pub use Joined.*
