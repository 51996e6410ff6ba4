-- ===== src/Itch/Market.antt =====
-- The messages on the market and on a symbol, and Trade, of src/itch/itch.hpp.
pub mod RoundTrip
use nasdaq_matching_engine.Common.{
  ℕ, ◌^◌, ◌%◌, ◌≡◌, ◌<◌, refl, not, ◌||◌, List, [], ◌∷◌, ◌++◌, Option, none, some, ◌==◌,
  if◌then◌else◌, length, take, drop, arith, take-append, true, false, ltb, ap,
}
use nasdaq_matching_engine.Types.{Price}
use nasdaq_matching_engine.Endian.{
  byte, put_be16, get_be16, put_be32, get_be32, put_be48, get_be48, put_be64, get_be64,
}
use nasdaq_matching_engine.Endian.Layout.{concat, char_at, put_price, get_price}
use nasdaq_matching_engine.Itch.{Header, put_header, get_header}

abbrev pub system_event_size : ℕ
system_event_size = 12

pub record SystemEvent : Type 0 where
  pub header : Header
  pub event_code : ℕ

unfoldable pub encode_system_event : SystemEvent → List ℕ
unfolding put_header put_price
encode_system_event m = concat ((put_header b'S' m.header) ∷ (byte m.event_code ∷ []) ∷ [])

unfoldable pub decode_system_event : List ℕ → Option SystemEvent
unfolding get_header get_price char_at
decode_system_event p =
    if not (length p == system_event_size)
    then none
    else some (record { header = get_header p; event_code = char_at 11 p })

abbrev pub stock_directory_size : ℕ
stock_directory_size = 39

pub record StockDirectory : Type 0 where
  pub header : Header
  pub stock : List ℕ
  pub market_category : ℕ
  pub financial_status : ℕ
  pub round_lot_size : ℕ
  pub round_lots_only : ℕ
  pub issue_classification : ℕ
  pub issue_subtype : List ℕ
  pub authenticity : ℕ
  pub short_sale_threshold : ℕ
  pub ipo_flag : ℕ
  pub luld_tier : ℕ
  pub etp_flag : ℕ
  pub etp_leverage : ℕ
  pub inverse_indicator : ℕ

unfoldable pub encode_stock_directory : StockDirectory → List ℕ
unfolding put_header put_price
encode_stock_directory m = concat (
    (put_header b'R' m.header)
    ∷ (m.stock)
    ∷ (byte m.market_category ∷ [])
    ∷ (byte m.financial_status ∷ [])
    ∷ (put_be32 m.round_lot_size)
    ∷ (byte m.round_lots_only ∷ [])
    ∷ (byte m.issue_classification ∷ [])
    ∷ (m.issue_subtype)
    ∷ (byte m.authenticity ∷ [])
    ∷ (byte m.short_sale_threshold ∷ [])
    ∷ (byte m.ipo_flag ∷ [])
    ∷ (byte m.luld_tier ∷ [])
    ∷ (byte m.etp_flag ∷ [])
    ∷ (put_be32 m.etp_leverage)
    ∷ (byte m.inverse_indicator ∷ [])
    ∷ [])

unfoldable pub decode_stock_directory : List ℕ → Option StockDirectory
unfolding get_header get_price char_at
decode_stock_directory p =
    if not (length p == stock_directory_size)
    then none
    else some (record {
      header = get_header p;
      stock = take 8 (drop 11 p);
      market_category = char_at 19 p;
      financial_status = char_at 20 p;
      round_lot_size = get_be32 (drop 21 p);
      round_lots_only = char_at 25 p;
      issue_classification = char_at 26 p;
      issue_subtype = take 2 (drop 27 p);
      authenticity = char_at 29 p;
      short_sale_threshold = char_at 30 p;
      ipo_flag = char_at 31 p;
      luld_tier = char_at 32 p;
      etp_flag = char_at 33 p;
      etp_leverage = get_be32 (drop 34 p);
      inverse_indicator = char_at 38 p;
    })

abbrev pub trading_action_size : ℕ
trading_action_size = 25

pub record TradingAction : Type 0 where
  pub header : Header
  pub stock : List ℕ
  pub trading_state : ℕ
  pub reserved : ℕ
  pub reason : List ℕ

unfoldable pub encode_trading_action : TradingAction → List ℕ
unfolding put_header put_price
encode_trading_action m = concat (
    (put_header b'H' m.header)
    ∷ (m.stock)
    ∷ (byte m.trading_state ∷ [])
    ∷ (byte m.reserved ∷ [])
    ∷ (m.reason)
    ∷ [])

unfoldable pub decode_trading_action : List ℕ → Option TradingAction
unfolding get_header get_price char_at
decode_trading_action p =
    if not (length p == trading_action_size)
    then none
    else some (record {
      header = get_header p;
      stock = take 8 (drop 11 p);
      trading_state = char_at 19 p;
      reserved = char_at 20 p;
      reason = take 4 (drop 21 p);
    })

abbrev pub trade_size : ℕ
trade_size = 44

pub record Trade : Type 0 where
  pub header : Header
  pub order_ref : ℕ
  pub side : ℕ
  pub shares : ℕ
  pub stock : List ℕ
  pub price : Price
  pub match_number : ℕ

-- `match_number` is written at `p + 40`, behind the 4 bytes that follow the price: they keep what the
-- buffer holds there, `gap`. The last 4 of the 48 bytes lie past `kSize`.
unfoldable pub encode_trade : List ℕ → Trade → List ℕ
unfolding put_header put_price
encode_trade gap m = concat (
    (put_header b'P' m.header)
    ∷ (put_be64 m.order_ref)
    ∷ (byte m.side ∷ [])
    ∷ (put_be32 m.shares)
    ∷ (m.stock)
    ∷ (put_price m.price)
    ∷ gap
    ∷ (put_be64 m.match_number)
    ∷ [])

-- `match_number` is read at `p + 40` too: its low 4 bytes are the first of `behind`, which stand in
-- memory behind the payload. Where nothing stands there, the read of the C++ code is undefined.
unfoldable pub decode_trade : List ℕ → List ℕ → Option Trade
unfolding get_header get_price char_at
decode_trade behind p =
    if not (length p == trade_size)
    then none
    else some (record {
      header = get_header p;
      order_ref = get_be64 (drop 11 p);
      side = char_at 19 p;
      shares = get_be32 (drop 20 p);
      stock = take 8 (drop 24 p);
      price = get_price (drop 32 p);
      match_number = get_be64 (drop 40 (p ++ behind));
    })
