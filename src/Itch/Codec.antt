-- ===== src/Itch/Codec.antt =====
-- The variant of src/itch/itch.hpp over its messages, their encoding, and the decoder, which picks
-- the message by its first byte. `encode` is overloaded in the source, and here a case of `encode`.
pub mod RoundTrip
pub mod Refusing
use nasdaq_matching_engine.Common.{ℕ, List, [], ◌∷◌, Option, none, ◌==◌, if◌then◌else◌, length}
use mathlib.Core.Option
use nasdaq_matching_engine.Endian.Layout.{char_at}
use nasdaq_matching_engine.Itch.Market.{
  SystemEvent, encode_system_event, decode_system_event, system_event_size, StockDirectory,
  encode_stock_directory, decode_stock_directory, stock_directory_size, TradingAction,
  encode_trading_action, decode_trading_action, trading_action_size, Trade, encode_trade,
  decode_trade, trade_size,
}
use nasdaq_matching_engine.Itch.Orders.{
  AddOrder, encode_add_order, decode_add_order, add_order_size, AddOrderMpid, encode_add_order_mpid,
  decode_add_order_mpid, add_order_mpid_size, OrderCancel, encode_order_cancel, decode_order_cancel,
  order_cancel_size, OrderDelete, encode_order_delete, decode_order_delete, order_delete_size,
  OrderReplace, encode_order_replace, decode_order_replace, order_replace_size,
}
use nasdaq_matching_engine.Itch.Fills.{
  OrderExecuted, encode_order_executed, decode_order_executed, order_executed_size,
  OrderExecutedWithPrice, encode_order_executed_with_price, decode_order_executed_with_price,
  order_executed_with_price_size,
}

pub data Message : Type 0 where
  system_event : SystemEvent → Message
  stock_directory : StockDirectory → Message
  trading_action : TradingAction → Message
  add_order : AddOrder → Message
  add_order_mpid : AddOrderMpid → Message
  order_executed : OrderExecuted → Message
  order_executed_with_price : OrderExecutedWithPrice → Message
  order_cancel : OrderCancel → Message
  order_delete : OrderDelete → Message
  order_replace : OrderReplace → Message
  trade : Trade → Message

-- What `encode` leaves from `p` on in a buffer of zeros.
unfoldable pub encode : Message → List ℕ
encode (system_event m) = encode_system_event m
encode (stock_directory m) = encode_stock_directory m
encode (trading_action m) = encode_trading_action m
encode (add_order m) = encode_add_order m
encode (add_order_mpid m) = encode_add_order_mpid m
encode (order_executed m) = encode_order_executed m
encode (order_executed_with_price m) = encode_order_executed_with_price m
encode (order_cancel m) = encode_order_cancel m
encode (order_delete m) = encode_order_delete m
encode (order_replace m) = encode_order_replace m
encode (trade m) = encode_trade (0 ∷ 0 ∷ 0 ∷ 0 ∷ []) m

-- `behind` is what stands in memory behind the payload `p`: the case of a trade reads 4 bytes of it.
unfoldable pub decode : List ℕ → List ℕ → Option Message
decode behind p =
    if length p == 0
    then none
    else if char_at 0 p == b'S'
    then Option.map system_event (decode_system_event p)
    else if char_at 0 p == b'R'
    then Option.map stock_directory (decode_stock_directory p)
    else if char_at 0 p == b'H'
    then Option.map trading_action (decode_trading_action p)
    else if char_at 0 p == b'A'
    then Option.map add_order (decode_add_order p)
    else if char_at 0 p == b'F'
    then Option.map add_order_mpid (decode_add_order_mpid p)
    else if char_at 0 p == b'E'
    then Option.map order_executed (decode_order_executed p)
    else if char_at 0 p == b'C'
    then Option.map order_executed_with_price (decode_order_executed_with_price p)
    else if char_at 0 p == b'X'
    then Option.map order_cancel (decode_order_cancel p)
    else if char_at 0 p == b'D'
    then Option.map order_delete (decode_order_delete p)
    else if char_at 0 p == b'U'
    then Option.map order_replace (decode_order_replace p)
    else if char_at 0 p == b'P'
    then Option.map trade (decode_trade behind p)
    else none

-- 0 for an unknown type.
unfoldable pub message_size : ℕ → ℕ
message_size type =
    if type == b'S'
    then system_event_size
    else if type == b'R'
    then stock_directory_size
    else if type == b'H'
    then trading_action_size
    else if type == b'A'
    then add_order_size
    else if type == b'F'
    then add_order_mpid_size
    else if type == b'E'
    then order_executed_size
    else if type == b'C'
    then order_executed_with_price_size
    else if type == b'X'
    then order_cancel_size
    else if type == b'D'
    then order_delete_size
    else if type == b'U'
    then order_replace_size
    else if type == b'P'
    then trade_size
    else if type == b'Y'
    then 20
    else if type == b'L'
    then 26
    else if type == b'V'
    then 35
    else if type == b'W'
    then 12
    else if type == b'K'
    then 28
    else if type == b'J'
    then 35
    else if type == b'h'
    then 21
    else if type == b'Q'
    then 40
    else if type == b'B'
    then 19
    else if type == b'I'
    then 50
    else if type == b'N'
    then 20
    else if type == b'O'
    then 48
    else 0
