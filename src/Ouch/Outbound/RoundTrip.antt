-- ===== src/Ouch/Outbound/RoundTrip.antt =====
-- Reading the outbound messages of src/ouch/ouch.hpp back from their encodings.
mod Entries
mod Replacements
mod Endings
pub use Entries.*
pub use Replacements.*
pub use Endings.*
