-- ===== src/Itch/Market/RoundTrip.antt =====
-- The messages on the market and on a symbol, and Trade, of src/itch/itch.hpp, read back from
-- their encodings.
mod Events
mod Stocks
mod Trades
pub use Events.*
pub use Stocks.*
pub use Trades.*
