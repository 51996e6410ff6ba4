-- ===== src/Itch/Fills/RoundTrip.antt =====
-- The two messages of src/itch/itch.hpp on executions, read back from their encodings.
use nasdaq_matching_engine.Common.{ℕ, ◌^◌, ◌≡◌, ◌<◌, refl, List, [], ◌∷◌, some, length, drop, arith}
use nasdaq_matching_engine.Endian.{byte, put_be32, put_be64}
use nasdaq_matching_engine.Endian.Layout.{concat, char_at, put_price}
use nasdaq_matching_engine.Endian.RoundTrip.{
  length-put_be32, length-put_be64, get_be32-put_be32, get_be64-put_be64,
}
use nasdaq_matching_engine.Endian.Layout.{
  Sized, offset, drop-concat, length-concat, IsWirePrice, length-put_price, get_price-put_price,
  byte_lem,
}
use nasdaq_matching_engine.Itch.{put_header}
use nasdaq_matching_engine.Itch.HeaderTrip.{IsHeader, length-put_header, get_header-put_header}
use nasdaq_matching_engine.Itch.Fills.{
  OrderExecuted, OrderExecutedWithPrice, encode_order_executed, encode_order_executed_with_price,
  decode_order_executed, decode_order_executed_with_price,
}

pub record IsOrderExecuted (m : OrderExecuted) : Type 0 where
  pub header_fits : IsHeader m.header
  pub order_ref_fits : m.order_ref < 2 ^ 64
  pub executed_shares_fits : m.executed_shares < 2 ^ 32
  pub match_number_fits : m.match_number < 2 ^ 64

module _ (m : OrderExecuted) (w : IsOrderExecuted m) where
  abbrev order_executed_parts : List (List ℕ)
  order_executed_parts =
      (put_header b'E' m.header)
      ∷ (put_be64 m.order_ref)
      ∷ (put_be32 m.executed_shares)
      ∷ (put_be64 m.match_number)
      ∷ []

  abbrev order_executed_sizes : List ℕ
  order_executed_sizes = 11 ∷ 8 ∷ 4 ∷ 8 ∷ []

  order_executed-Sized : Sized order_executed_sizes order_executed_parts
  order_executed-Sized = (
    length-put_header b'E' m.header,
    (
      length-put_be64 m.order_ref,
      (length-put_be32 m.executed_shares, (length-put_be64 m.match_number, tt)),
    ),
  )

  order_executed_at :
      (k : ℕ)
      → drop (offset k order_executed_sizes) (concat order_executed_parts)
        ≡ concat (drop k order_executed_parts)
  order_executed_at = drop-concat order_executed_sizes order_executed_parts order_executed-Sized

  pub length-encode_order_executed : length (encode_order_executed m) ≡ 31
  unfolding encode_order_executed
  length-encode_order_executed =
      length-concat order_executed_sizes order_executed_parts order_executed-Sized

  pub type-encode_order_executed : char_at 0 (encode_order_executed m) ≡ b'E'
  unfolding encode_order_executed char_at put_header
  type-encode_order_executed = refl

  pub decode_order_executed-encode_order_executed :
      decode_order_executed (encode_order_executed m) ≡ some m
  unfolding decode_order_executed encode_order_executed char_at
  decode_order_executed-encode_order_executed =
      rw
        (
          length-concat order_executed_sizes order_executed_parts order_executed-Sized,
          order_executed_at 1,
          order_executed_at 2,
          order_executed_at 3,
        )
        (ground (
          arith,
          get_header-put_header b'E' m.header (concat (drop 1 order_executed_parts)) w.header_fits,
          get_be64-put_be64 m.order_ref (concat (drop 2 order_executed_parts)) w.order_ref_fits,
          get_be32-put_be32 m.executed_shares (concat (drop 3 order_executed_parts))
              w.executed_shares_fits,
          get_be64-put_be64 m.match_number (concat (drop 4 order_executed_parts))
              w.match_number_fits,
        ))

pub record IsOrderExecutedWithPrice (m : OrderExecutedWithPrice) : Type 0 where
  pub exec_fits : IsOrderExecuted m.exec
  pub printable_fits : m.printable < 2 ^ 8
  pub execution_price_fits : IsWirePrice m.execution_price

module _ (m : OrderExecutedWithPrice) (w : IsOrderExecutedWithPrice m) where
  abbrev order_executed_with_price_parts : List (List ℕ)
  order_executed_with_price_parts =
      (put_header b'C' m.exec.header)
      ∷ (put_be64 m.exec.order_ref)
      ∷ (put_be32 m.exec.executed_shares)
      ∷ (put_be64 m.exec.match_number)
      ∷ (byte m.printable ∷ [])
      ∷ (put_price m.execution_price)
      ∷ []

  abbrev order_executed_with_price_sizes : List ℕ
  order_executed_with_price_sizes = 11 ∷ 8 ∷ 4 ∷ 8 ∷ 1 ∷ 4 ∷ []

  order_executed_with_price-Sized :
      Sized order_executed_with_price_sizes order_executed_with_price_parts
  order_executed_with_price-Sized = (
    length-put_header b'C' m.exec.header,
    (
      length-put_be64 m.exec.order_ref,
      (
        length-put_be32 m.exec.executed_shares,
        (length-put_be64 m.exec.match_number, (refl, (length-put_price m.execution_price, tt))),
      ),
    ),
  )

  order_executed_with_price_at :
      (k : ℕ)
      → drop (offset k order_executed_with_price_sizes) (concat order_executed_with_price_parts)
        ≡ concat (drop k order_executed_with_price_parts)
  order_executed_with_price_at =
      drop-concat order_executed_with_price_sizes order_executed_with_price_parts
        order_executed_with_price-Sized

  pub length-encode_order_executed_with_price : length (encode_order_executed_with_price m) ≡ 36
  unfolding encode_order_executed_with_price
  length-encode_order_executed_with_price =
      length-concat order_executed_with_price_sizes order_executed_with_price_parts
        order_executed_with_price-Sized

  pub type-encode_order_executed_with_price : char_at 0 (encode_order_executed_with_price m) ≡ b'C'
  unfolding encode_order_executed_with_price char_at put_header
  type-encode_order_executed_with_price = refl

  pub decode_order_executed_with_price-encode_order_executed_with_price :
      decode_order_executed_with_price (encode_order_executed_with_price m) ≡ some m
  unfolding decode_order_executed_with_price encode_order_executed_with_price char_at
  decode_order_executed_with_price-encode_order_executed_with_price =
      rw
        (
          length-concat order_executed_with_price_sizes order_executed_with_price_parts
              order_executed_with_price-Sized,
          order_executed_with_price_at 1,
          order_executed_with_price_at 2,
          order_executed_with_price_at 3,
          order_executed_with_price_at 4,
          order_executed_with_price_at 5,
        )
        (ground (
          arith,
          get_header-put_header b'C' m.exec.header (concat (drop 1 order_executed_with_price_parts))
              w.exec_fits.header_fits,
          get_be64-put_be64 m.exec.order_ref (concat (drop 2 order_executed_with_price_parts))
              w.exec_fits.order_ref_fits,
          get_be32-put_be32 m.exec.executed_shares (concat (drop 3 order_executed_with_price_parts))
              w.exec_fits.executed_shares_fits,
          get_be64-put_be64 m.exec.match_number (concat (drop 4 order_executed_with_price_parts))
              w.exec_fits.match_number_fits,
          byte_lem m.printable w.printable_fits,
          get_price-put_price m.execution_price (concat (drop 6 order_executed_with_price_parts))
              w.execution_price_fits,
        ))
