-- ===== src/Net.antt =====
-- The address types of `std::net` that the program uses: their classification (`Address`) and
-- their text forms (`Decimal`).
mod Address
mod Decimal
pub mod Routable
pub mod Parsed
pub mod Printed
unfoldable pub use Address.*
unfoldable pub use Decimal.*
