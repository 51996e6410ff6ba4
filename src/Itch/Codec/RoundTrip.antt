-- ===== src/Itch/Codec/RoundTrip.antt =====
-- The codec of src/itch/itch.hpp as a whole: reading back what was written.
use nasdaq_matching_engine.Common.{arith, ◌<◌, ◌^◌, ◌≡◌, refl, some, length, ℕ, List}
use nasdaq_matching_engine.Itch.Codec.{
  Message, system_event, stock_directory, trading_action, add_order, add_order_mpid, order_executed,
  order_executed_with_price, order_cancel, order_delete, order_replace, trade, encode, decode,
}
use nasdaq_matching_engine.Itch.Market.RoundTrip.{
  IsSystemEvent, length-encode_system_event, type-encode_system_event,
  decode_system_event-encode_system_event, IsStockDirectory, length-encode_stock_directory,
  type-encode_stock_directory, decode_stock_directory-encode_stock_directory, IsTradingAction,
  length-encode_trading_action, type-encode_trading_action,
  decode_trading_action-encode_trading_action,
}
use nasdaq_matching_engine.Itch.Orders.RoundTrip.{
  IsAddOrder, length-encode_add_order, type-encode_add_order, decode_add_order-encode_add_order,
  IsAddOrderMpid, length-encode_add_order_mpid, type-encode_add_order_mpid,
  decode_add_order_mpid-encode_add_order_mpid, IsOrderCancel, length-encode_order_cancel,
  type-encode_order_cancel, decode_order_cancel-encode_order_cancel, IsOrderDelete,
  length-encode_order_delete, type-encode_order_delete, decode_order_delete-encode_order_delete,
  IsOrderReplace, length-encode_order_replace, type-encode_order_replace,
  decode_order_replace-encode_order_replace,
}
use nasdaq_matching_engine.Itch.Fills.RoundTrip.{
  IsOrderExecuted, length-encode_order_executed, type-encode_order_executed,
  decode_order_executed-encode_order_executed, IsOrderExecutedWithPrice,
  length-encode_order_executed_with_price, type-encode_order_executed_with_price,
  decode_order_executed_with_price-encode_order_executed_with_price,
}

-- The fields of the message fit on the wire. A trade does not: it takes 4 bytes more than its size.
abbrev pub IsMessage : Message → Type 0
IsMessage (system_event m) = IsSystemEvent m
IsMessage (stock_directory m) = IsStockDirectory m
IsMessage (trading_action m) = IsTradingAction m
IsMessage (add_order m) = IsAddOrder m
IsMessage (add_order_mpid m) = IsAddOrderMpid m
IsMessage (order_executed m) = IsOrderExecuted m
IsMessage (order_executed_with_price m) = IsOrderExecutedWithPrice m
IsMessage (order_cancel m) = IsOrderCancel m
IsMessage (order_delete m) = IsOrderDelete m
IsMessage (order_replace m) = IsOrderReplace m
IsMessage (trade m) = ⊥

-- `decode` gives back each message other than a trade that `encode` wrote, if its fields fit on the
-- wire, whatever stands in memory behind it.
pub decode-encode :
    (behind : List ℕ) (m : Message) → IsMessage m → decode behind (encode m) ≡ some m
unfolding encode decode
decode-encode behind (system_event m) w =
    rw
      (
        length-encode_system_event m w,
        type-encode_system_event m w,
        decode_system_event-encode_system_event m w,
      )
      refl
decode-encode behind (stock_directory m) w =
    rw
      (
        length-encode_stock_directory m w,
        type-encode_stock_directory m w,
        decode_stock_directory-encode_stock_directory m w,
      )
      refl
decode-encode behind (trading_action m) w =
    rw
      (
        length-encode_trading_action m w,
        type-encode_trading_action m w,
        decode_trading_action-encode_trading_action m w,
      )
      refl
decode-encode behind (add_order m) w =
    rw
      (
        length-encode_add_order m w,
        type-encode_add_order m w,
        decode_add_order-encode_add_order m w,
      )
      refl
decode-encode behind (add_order_mpid m) w =
    rw
      (
        length-encode_add_order_mpid m w,
        type-encode_add_order_mpid m w,
        decode_add_order_mpid-encode_add_order_mpid m w,
      )
      refl
decode-encode behind (order_executed m) w =
    rw
      (
        length-encode_order_executed m w,
        type-encode_order_executed m w,
        decode_order_executed-encode_order_executed m w,
      )
      refl
decode-encode behind (order_executed_with_price m) w =
    rw
      (
        length-encode_order_executed_with_price m w,
        type-encode_order_executed_with_price m w,
        decode_order_executed_with_price-encode_order_executed_with_price m w,
      )
      refl
decode-encode behind (order_cancel m) w =
    rw
      (
        length-encode_order_cancel m w,
        type-encode_order_cancel m w,
        decode_order_cancel-encode_order_cancel m w,
      )
      refl
decode-encode behind (order_delete m) w =
    rw
      (
        length-encode_order_delete m w,
        type-encode_order_delete m w,
        decode_order_delete-encode_order_delete m w,
      )
      refl
decode-encode behind (order_replace m) w =
    rw
      (
        length-encode_order_replace m w,
        type-encode_order_replace m w,
        decode_order_replace-encode_order_replace m w,
      )
      refl
decode-encode behind (trade m) w = absurd w

-- Two bytes hold the length of a message.
pub encode_small : (m : Message) → IsMessage m → length (encode m) < 2 ^ 16
unfolding encode
encode_small (system_event m) w = omega (arith, length-encode_system_event m w)
encode_small (stock_directory m) w = omega (arith, length-encode_stock_directory m w)
encode_small (trading_action m) w = omega (arith, length-encode_trading_action m w)
encode_small (add_order m) w = omega (arith, length-encode_add_order m w)
encode_small (add_order_mpid m) w = omega (arith, length-encode_add_order_mpid m w)
encode_small (order_executed m) w = omega (arith, length-encode_order_executed m w)
encode_small (order_executed_with_price m) w =
    omega (arith, length-encode_order_executed_with_price m w)
encode_small (order_cancel m) w = omega (arith, length-encode_order_cancel m w)
encode_small (order_delete m) w = omega (arith, length-encode_order_delete m w)
encode_small (order_replace m) w = omega (arith, length-encode_order_replace m w)
encode_small (trade m) w = absurd w
