-- ===== src/Ouch/Outbound.antt =====
-- The outbound messages of src/ouch/ouch.hpp, as `Ouch.Inbound` has the inbound ones. Accepted and
-- Replaced share the places of their first 16 fields.
pub mod RoundTrip
use nasdaq_matching_engine.Common.{
  ℕ, ◌^◌, ◌%◌, ◌≡◌, ◌<◌, refl, not, ◌||◌, List, [], ◌∷◌, ◌++◌, Option, none, some, ◌==◌,
  if◌then◌else◌, length, take, drop, arith, take-append, true, false, ltb, ap,
}
use nasdaq_matching_engine.Common.Int.{lt?, pos, eq?}
use nasdaq_matching_engine.Types.{Price}
use nasdaq_matching_engine.Endian.{
  byte, put_be16, get_be16, put_be32, get_be32, put_be48, get_be48, put_be64, get_be64,
}
use nasdaq_matching_engine.Endian.Layout.{concat, char_at, put_price, get_price}

abbrev pub system_event_size : ℕ
system_event_size = 10

pub record SystemEvent : Type 0 where
  pub timestamp : ℕ
  pub event_code : ℕ

unfoldable pub encode_system_event : SystemEvent → List ℕ
unfolding put_price
encode_system_event m =
    concat ((b'S' ∷ []) ∷ (put_be64 m.timestamp) ∷ (byte m.event_code ∷ []) ∷ [])

unfoldable pub decode_system_event : List ℕ → Option SystemEvent
unfolding get_price char_at
decode_system_event p =
    if not (length p == system_event_size) || not (char_at 0 p == b'S')
    then none
    else some (record { timestamp = get_be64 (drop 1 p); event_code = char_at 9 p })

abbrev pub accepted_size : ℕ
accepted_size = 66

pub record Accepted : Type 0 where
  pub timestamp : ℕ
  pub token : List ℕ
  pub side : ℕ
  pub shares : ℕ
  pub stock : List ℕ
  pub price : Price
  pub tif : ℕ
  pub firm : List ℕ
  pub display : ℕ
  pub order_ref : ℕ
  pub capacity : ℕ
  pub intermarket_sweep : ℕ
  pub min_qty : ℕ
  pub cross_type : ℕ
  pub order_state : ℕ
  pub bbo_weight_indicator : ℕ

unfoldable pub encode_accepted : Accepted → List ℕ
unfolding put_price
encode_accepted m = concat (
    (b'A' ∷ [])
    ∷ (put_be64 m.timestamp)
    ∷ (m.token)
    ∷ (byte m.side ∷ [])
    ∷ (put_be32 m.shares)
    ∷ (m.stock)
    ∷ (put_price m.price)
    ∷ (put_be32 m.tif)
    ∷ (m.firm)
    ∷ (byte m.display ∷ [])
    ∷ (put_be64 m.order_ref)
    ∷ (byte m.capacity ∷ [])
    ∷ (byte m.intermarket_sweep ∷ [])
    ∷ (put_be32 m.min_qty)
    ∷ (byte m.cross_type ∷ [])
    ∷ (byte m.order_state ∷ [])
    ∷ (byte m.bbo_weight_indicator ∷ [])
    ∷ [])

unfoldable pub decode_accepted : List ℕ → Option Accepted
unfolding get_price char_at
decode_accepted p =
    if not (length p == accepted_size) || not (char_at 0 p == b'A')
    then none
    else some (record {
      timestamp = get_be64 (drop 1 p);
      token = take 14 (drop 9 p);
      side = char_at 23 p;
      shares = get_be32 (drop 24 p);
      stock = take 8 (drop 28 p);
      price = get_price (drop 36 p);
      tif = get_be32 (drop 40 p);
      firm = take 4 (drop 44 p);
      display = char_at 48 p;
      order_ref = get_be64 (drop 49 p);
      capacity = char_at 57 p;
      intermarket_sweep = char_at 58 p;
      min_qty = get_be32 (drop 59 p);
      cross_type = char_at 63 p;
      order_state = char_at 64 p;
      bbo_weight_indicator = char_at 65 p;
    })

abbrev pub replaced_size : ℕ
replaced_size = 80

pub record Replaced : Type 0 where
  pub timestamp : ℕ
  pub replacement_token : List ℕ
  pub side : ℕ
  pub shares : ℕ
  pub stock : List ℕ
  pub price : Price
  pub tif : ℕ
  pub firm : List ℕ
  pub display : ℕ
  pub order_ref : ℕ
  pub capacity : ℕ
  pub intermarket_sweep : ℕ
  pub min_qty : ℕ
  pub cross_type : ℕ
  pub order_state : ℕ
  pub bbo_weight_indicator : ℕ
  pub previous_token : List ℕ

unfoldable pub encode_replaced : Replaced → List ℕ
unfolding put_price
encode_replaced m = concat (
    (b'U' ∷ [])
    ∷ (put_be64 m.timestamp)
    ∷ (m.replacement_token)
    ∷ (byte m.side ∷ [])
    ∷ (put_be32 m.shares)
    ∷ (m.stock)
    ∷ (put_price m.price)
    ∷ (put_be32 m.tif)
    ∷ (m.firm)
    ∷ (byte m.display ∷ [])
    ∷ (put_be64 m.order_ref)
    ∷ (byte m.capacity ∷ [])
    ∷ (byte m.intermarket_sweep ∷ [])
    ∷ (put_be32 m.min_qty)
    ∷ (byte m.cross_type ∷ [])
    ∷ (byte m.order_state ∷ [])
    ∷ (byte m.bbo_weight_indicator ∷ [])
    ∷ (m.previous_token)
    ∷ [])

unfoldable pub decode_replaced : List ℕ → Option Replaced
unfolding get_price char_at
decode_replaced p =
    if not (length p == replaced_size) || not (char_at 0 p == b'U')
    then none
    else some (record {
      timestamp = get_be64 (drop 1 p);
      replacement_token = take 14 (drop 9 p);
      side = char_at 23 p;
      shares = get_be32 (drop 24 p);
      stock = take 8 (drop 28 p);
      price = get_price (drop 36 p);
      tif = get_be32 (drop 40 p);
      firm = take 4 (drop 44 p);
      display = char_at 48 p;
      order_ref = get_be64 (drop 49 p);
      capacity = char_at 57 p;
      intermarket_sweep = char_at 58 p;
      min_qty = get_be32 (drop 59 p);
      cross_type = char_at 63 p;
      order_state = char_at 64 p;
      bbo_weight_indicator = char_at 65 p;
      previous_token = take 14 (drop 66 p);
    })

abbrev pub executed_size : ℕ
executed_size = 40

pub record Executed : Type 0 where
  pub timestamp : ℕ
  pub token : List ℕ
  pub executed_shares : ℕ
  pub execution_price : Price
  pub liquidity_flag : ℕ
  pub match_number : ℕ

unfoldable pub encode_executed : Executed → List ℕ
unfolding put_price
encode_executed m = concat (
    (b'E' ∷ [])
    ∷ (put_be64 m.timestamp)
    ∷ (m.token)
    ∷ (put_be32 m.executed_shares)
    ∷ (put_price m.execution_price)
    ∷ (byte m.liquidity_flag ∷ [])
    ∷ (put_be64 m.match_number)
    ∷ [])

unfoldable pub decode_executed : List ℕ → Option Executed
unfolding get_price char_at
decode_executed p =
    if not (length p == executed_size) || not (char_at 0 p == b'E')
    then none
    else some (record {
      timestamp = get_be64 (drop 1 p);
      token = take 14 (drop 9 p);
      executed_shares = get_be32 (drop 23 p);
      execution_price = get_price (drop 27 p);
      liquidity_flag = char_at 31 p;
      match_number = get_be64 (drop 32 p);
    })

abbrev pub canceled_size : ℕ
canceled_size = 28

pub record Canceled : Type 0 where
  pub timestamp : ℕ
  pub token : List ℕ
  pub decrement_shares : ℕ
  pub reason : ℕ

unfoldable pub encode_canceled : Canceled → List ℕ
unfolding put_price
encode_canceled m = concat (
    (b'C' ∷ [])
    ∷ (put_be64 m.timestamp)
    ∷ (m.token)
    ∷ (put_be32 m.decrement_shares)
    ∷ (byte m.reason ∷ [])
    ∷ [])

unfoldable pub decode_canceled : List ℕ → Option Canceled
unfolding get_price char_at
decode_canceled p =
    if not (length p == canceled_size) || not (char_at 0 p == b'C')
    then none
    else some (record {
      timestamp = get_be64 (drop 1 p);
      token = take 14 (drop 9 p);
      decrement_shares = get_be32 (drop 23 p);
      reason = char_at 27 p;
    })

abbrev pub rejected_size : ℕ
rejected_size = 24

pub record Rejected : Type 0 where
  pub timestamp : ℕ
  pub token : List ℕ
  pub reason : ℕ

unfoldable pub encode_rejected : Rejected → List ℕ
unfolding put_price
encode_rejected m =
    concat ((b'J' ∷ []) ∷ (put_be64 m.timestamp) ∷ (m.token) ∷ (byte m.reason ∷ []) ∷ [])

unfoldable pub decode_rejected : List ℕ → Option Rejected
unfolding get_price char_at
decode_rejected p =
    if not (length p == rejected_size) || not (char_at 0 p == b'J')
    then none
    else some (record {
      timestamp = get_be64 (drop 1 p);
      token = take 14 (drop 9 p);
      reason = char_at 23 p;
    })
