-- ===== src/Ouch.antt =====
-- src/ouch/ouch.hpp, the OUCH 4.2 codec, and its constants.
pub mod Inbound
pub mod Outbound
pub mod Tokens
use nasdaq_matching_engine.Common.{ℕ, List}
use nasdaq_matching_engine.Common.Int.{pos}
use nasdaq_matching_engine.Types.{Price, fill_field, view_length}
use nasdaq_matching_engine.Common.{take}

-- The price that means a market order.
abbrev pub market_price : Price
market_price = pos 2147483647

-- The time in force that means immediate or cancel.
abbrev pub tif_ioc : ℕ
tif_ioc = 0

-- A token is an array of 14 chars, which spaces fill up.
unfoldable pub make_token : List ℕ → List ℕ
make_token sv = fill_field 14 sv

unfoldable pub token_view : List ℕ → List ℕ
token_view t = take (view_length t 14) t
