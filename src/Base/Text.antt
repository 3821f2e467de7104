-- ===== src/Base/Text.antt =====
-- Package `strings` and package `strconv` as the program uses them, and the laws of decimal numbers.
mod Defs
mod RoundTrip
unfoldable pub use Defs.*
pub use RoundTrip.*
