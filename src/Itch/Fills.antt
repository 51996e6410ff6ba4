-- ===== src/Itch/Fills.antt =====
-- The two messages of src/itch/itch.hpp on executions. A message that the source builds from
-- another and a new type byte has its fields.
pub mod RoundTrip
use nasdaq_matching_engine.Common.{
  ℕ, ◌^◌, ◌%◌, ◌≡◌, ◌<◌, refl, not, ◌||◌, List, [], ◌∷◌, ◌++◌, Option, none, some, ◌==◌,
  if◌then◌else◌, length, take, drop, arith, take-append, true, false, ltb, ap,
}
use nasdaq_matching_engine.Types.{Price}
use nasdaq_matching_engine.Endian.{
  byte, put_be16, get_be16, put_be32, get_be32, put_be48, get_be48, put_be64, get_be64,
}
use nasdaq_matching_engine.Endian.Layout.{concat, char_at, put_price, get_price}
use nasdaq_matching_engine.Itch.{Header, put_header, get_header}

abbrev pub order_executed_size : ℕ
order_executed_size = 31

pub record OrderExecuted : Type 0 where
  pub header : Header
  pub order_ref : ℕ
  pub executed_shares : ℕ
  pub match_number : ℕ

abbrev pub order_executed_fields : ℕ → OrderExecuted → List (List ℕ)
order_executed_fields type m =
    (put_header type m.header)
    ∷ (put_be64 m.order_ref)
    ∷ (put_be32 m.executed_shares)
    ∷ (put_be64 m.match_number)
    ∷ []

unfoldable pub encode_order_executed : OrderExecuted → List ℕ
encode_order_executed m = concat (order_executed_fields b'E' m)

unfoldable pub decode_order_executed : List ℕ → Option OrderExecuted
unfolding get_header get_price char_at
decode_order_executed p =
    if not (length p == order_executed_size)
    then none
    else some (record {
      header = get_header p;
      order_ref = get_be64 (drop 11 p);
      executed_shares = get_be32 (drop 19 p);
      match_number = get_be64 (drop 23 p);
    })

abbrev pub order_executed_with_price_size : ℕ
order_executed_with_price_size = 36

pub record OrderExecutedWithPrice : Type 0 where
  pub exec : OrderExecuted
  pub printable : ℕ
  pub execution_price : Price

unfoldable pub encode_order_executed_with_price : OrderExecutedWithPrice → List ℕ
unfolding put_header put_price
encode_order_executed_with_price m = concat (
    order_executed_fields b'C' m.exec
    ++ (byte m.printable ∷ []) ∷ (put_price m.execution_price) ∷ [])

unfoldable pub decode_order_executed_with_price : List ℕ → Option OrderExecutedWithPrice
unfolding get_header get_price char_at
decode_order_executed_with_price p =
    if not (length p == order_executed_with_price_size)
    then none
    else some (record {
      exec = record {
        header = get_header p;
        order_ref = get_be64 (drop 11 p);
        executed_shares = get_be32 (drop 19 p);
        match_number = get_be64 (drop 23 p);
      };
      printable = char_at 31 p;
      execution_price = get_price (drop 32 p);
    })
