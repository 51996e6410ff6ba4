-- ===== src/Itch/Orders/RoundTrip.antt =====
-- The messages of src/itch/itch.hpp on orders that enter, shrink or leave the book, read back
-- from their encodings.
mod Additions
mod Changes
pub use Additions.*
pub use Changes.*
