-- ===== src/Ouch/Outbound/RoundTrip/Endings.antt =====
-- Reading back `Executed`, `Canceled` and `Rejected` of src/ouch/ouch.hpp.
use nasdaq_matching_engine.Common.{
  ℕ, ◌^◌, ◌≡◌, ◌<◌, refl, List, [], ◌∷◌, some, length, drop, arith, take-append,
}
use nasdaq_matching_engine.Endian.{byte, put_be32, put_be64}
use nasdaq_matching_engine.Endian.Layout.{concat, char_at, put_price}
use nasdaq_matching_engine.Endian.RoundTrip.{
  length-put_be32, length-put_be64, get_be32-put_be32, get_be64-put_be64,
}
use nasdaq_matching_engine.Endian.Layout.{
  Sized, offset, drop-concat, length-concat, IsWirePrice, length-put_price, get_price-put_price,
  byte_lem,
}
use nasdaq_matching_engine.Ouch.Outbound.{
  Executed, Canceled, Rejected, encode_executed, encode_canceled, encode_rejected, decode_executed,
  decode_canceled, decode_rejected,
}

pub record IsExecuted (m : Executed) : Type 0 where
  pub timestamp_fits : m.timestamp < 2 ^ 64
  pub token_fits : length m.token ≡ 14
  pub executed_shares_fits : m.executed_shares < 2 ^ 32
  pub execution_price_fits : IsWirePrice m.execution_price
  pub liquidity_flag_fits : m.liquidity_flag < 2 ^ 8
  pub match_number_fits : m.match_number < 2 ^ 64

module _ (m : Executed) (w : IsExecuted m) where
  abbrev executed_fields : List (List ℕ)
  executed_fields =
      (b'E' ∷ [])
      ∷ (put_be64 m.timestamp)
      ∷ (m.token)
      ∷ (put_be32 m.executed_shares)
      ∷ (put_price m.execution_price)
      ∷ (byte m.liquidity_flag ∷ [])
      ∷ (put_be64 m.match_number)
      ∷ []

  abbrev executed_sizes : List ℕ
  executed_sizes = 1 ∷ 8 ∷ 14 ∷ 4 ∷ 4 ∷ 1 ∷ 8 ∷ []

  executed-Sized : Sized executed_sizes executed_fields
  executed-Sized = (
    refl,
    (
      length-put_be64 m.timestamp,
      (
        w.token_fits,
        (
          length-put_be32 m.executed_shares,
          (length-put_price m.execution_price, (refl, (length-put_be64 m.match_number, tt))),
        ),
      ),
    ),
  )

  executed_at :
      (k : ℕ)
      → drop (offset k executed_sizes) (concat executed_fields) ≡ concat (drop k executed_fields)
  executed_at = drop-concat executed_sizes executed_fields executed-Sized

  pub length-encode_executed : length (encode_executed m) ≡ 40
  unfolding encode_executed
  length-encode_executed = length-concat executed_sizes executed_fields executed-Sized

  pub type-encode_executed : char_at 0 (encode_executed m) ≡ b'E'
  unfolding encode_executed char_at
  type-encode_executed = refl

  pub decode_executed-encode_executed : decode_executed (encode_executed m) ≡ some m
  unfolding decode_executed encode_executed char_at
  decode_executed-encode_executed =
      rw
        (
          length-concat executed_sizes executed_fields executed-Sized,
          executed_at 1,
          executed_at 2,
          executed_at 3,
          executed_at 4,
          executed_at 5,
          executed_at 6,
        )
        (ground (
          arith,
          get_be64-put_be64 m.timestamp (concat (drop 2 executed_fields)) w.timestamp_fits,
          take-append m.token (concat (drop 3 executed_fields)) 14 w.token_fits,
          get_be32-put_be32 m.executed_shares (concat (drop 4 executed_fields))
              w.executed_shares_fits,
          get_price-put_price m.execution_price (concat (drop 5 executed_fields))
              w.execution_price_fits,
          byte_lem m.liquidity_flag w.liquidity_flag_fits,
          get_be64-put_be64 m.match_number (concat (drop 7 executed_fields)) w.match_number_fits,
        ))

pub record IsCanceled (m : Canceled) : Type 0 where
  pub timestamp_fits : m.timestamp < 2 ^ 64
  pub token_fits : length m.token ≡ 14
  pub decrement_shares_fits : m.decrement_shares < 2 ^ 32
  pub reason_fits : m.reason < 2 ^ 8

module _ (m : Canceled) (w : IsCanceled m) where
  abbrev canceled_fields : List (List ℕ)
  canceled_fields =
      (b'C' ∷ [])
      ∷ (put_be64 m.timestamp)
      ∷ (m.token)
      ∷ (put_be32 m.decrement_shares)
      ∷ (byte m.reason ∷ [])
      ∷ []

  abbrev canceled_sizes : List ℕ
  canceled_sizes = 1 ∷ 8 ∷ 14 ∷ 4 ∷ 1 ∷ []

  canceled-Sized : Sized canceled_sizes canceled_fields
  canceled-Sized = (
    refl,
    (length-put_be64 m.timestamp, (w.token_fits, (length-put_be32 m.decrement_shares, (refl, tt)))),
  )

  canceled_at :
      (k : ℕ)
      → drop (offset k canceled_sizes) (concat canceled_fields) ≡ concat (drop k canceled_fields)
  canceled_at = drop-concat canceled_sizes canceled_fields canceled-Sized

  pub length-encode_canceled : length (encode_canceled m) ≡ 28
  unfolding encode_canceled
  length-encode_canceled = length-concat canceled_sizes canceled_fields canceled-Sized

  pub type-encode_canceled : char_at 0 (encode_canceled m) ≡ b'C'
  unfolding encode_canceled char_at
  type-encode_canceled = refl

  pub decode_canceled-encode_canceled : decode_canceled (encode_canceled m) ≡ some m
  unfolding decode_canceled encode_canceled char_at
  decode_canceled-encode_canceled =
      rw
        (
          length-concat canceled_sizes canceled_fields canceled-Sized,
          canceled_at 1,
          canceled_at 2,
          canceled_at 3,
          canceled_at 4,
        )
        (ground (
          arith,
          get_be64-put_be64 m.timestamp (concat (drop 2 canceled_fields)) w.timestamp_fits,
          take-append m.token (concat (drop 3 canceled_fields)) 14 w.token_fits,
          get_be32-put_be32 m.decrement_shares (concat (drop 4 canceled_fields))
              w.decrement_shares_fits,
          byte_lem m.reason w.reason_fits,
        ))

pub record IsRejected (m : Rejected) : Type 0 where
  pub timestamp_fits : m.timestamp < 2 ^ 64
  pub token_fits : length m.token ≡ 14
  pub reason_fits : m.reason < 2 ^ 8

module _ (m : Rejected) (w : IsRejected m) where
  abbrev rejected_fields : List (List ℕ)
  rejected_fields = (b'J' ∷ []) ∷ (put_be64 m.timestamp) ∷ (m.token) ∷ (byte m.reason ∷ []) ∷ []

  abbrev rejected_sizes : List ℕ
  rejected_sizes = 1 ∷ 8 ∷ 14 ∷ 1 ∷ []

  rejected-Sized : Sized rejected_sizes rejected_fields
  rejected-Sized = (refl, (length-put_be64 m.timestamp, (w.token_fits, (refl, tt))))

  rejected_at :
      (k : ℕ)
      → drop (offset k rejected_sizes) (concat rejected_fields) ≡ concat (drop k rejected_fields)
  rejected_at = drop-concat rejected_sizes rejected_fields rejected-Sized

  pub length-encode_rejected : length (encode_rejected m) ≡ 24
  unfolding encode_rejected
  length-encode_rejected = length-concat rejected_sizes rejected_fields rejected-Sized

  pub type-encode_rejected : char_at 0 (encode_rejected m) ≡ b'J'
  unfolding encode_rejected char_at
  type-encode_rejected = refl

  pub decode_rejected-encode_rejected : decode_rejected (encode_rejected m) ≡ some m
  unfolding decode_rejected encode_rejected char_at
  decode_rejected-encode_rejected =
      rw
        (
          length-concat rejected_sizes rejected_fields rejected-Sized,
          rejected_at 1,
          rejected_at 2,
          rejected_at 3,
        )
        (ground (
          arith,
          get_be64-put_be64 m.timestamp (concat (drop 2 rejected_fields)) w.timestamp_fits,
          take-append m.token (concat (drop 3 rejected_fields)) 14 w.token_fits,
          byte_lem m.reason w.reason_fits,
        ))
