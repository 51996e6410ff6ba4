-- ===== src/Ouch/Inbound/RoundTrip.antt =====
-- Reading the inbound messages of src/ouch/ouch.hpp back from their encodings.
use nasdaq_matching_engine.Common.{
  ℕ, ◌^◌, ◌≡◌, ◌<◌, refl, List, [], ◌∷◌, some, length, drop, arith, take-append,
}
use nasdaq_matching_engine.Endian.{byte, put_be32}
use nasdaq_matching_engine.Endian.Layout.{concat, char_at, put_price}
use nasdaq_matching_engine.Endian.RoundTrip.{length-put_be32, get_be32-put_be32}
use nasdaq_matching_engine.Endian.Layout.{
  Sized, offset, drop-concat, length-concat, IsWirePrice, length-put_price, get_price-put_price,
  byte_lem,
}
use nasdaq_matching_engine.Ouch.Inbound.{
  EnterOrder, CancelOrder, ReplaceOrder, encode_enter_order, encode_cancel_order,
  encode_replace_order, decode_enter_order, decode_cancel_order, decode_replace_order,
}

pub record IsEnterOrder (m : EnterOrder) : Type 0 where
  pub token_fits : length m.token ≡ 14
  pub side_fits : m.side < 2 ^ 8
  pub shares_fits : m.shares < 2 ^ 32
  pub stock_fits : length m.stock ≡ 8
  pub price_fits : IsWirePrice m.price
  pub tif_fits : m.tif < 2 ^ 32
  pub firm_fits : length m.firm ≡ 4
  pub display_fits : m.display < 2 ^ 8
  pub capacity_fits : m.capacity < 2 ^ 8
  pub intermarket_sweep_fits : m.intermarket_sweep < 2 ^ 8
  pub min_qty_fits : m.min_qty < 2 ^ 32
  pub cross_type_fits : m.cross_type < 2 ^ 8
  pub customer_type_fits : m.customer_type < 2 ^ 8

module _ (m : EnterOrder) (w : IsEnterOrder m) where
  abbrev enter_order_fields : List (List ℕ)
  enter_order_fields =
      (b'O' ∷ [])
      ∷ (m.token)
      ∷ (byte m.side ∷ [])
      ∷ (put_be32 m.shares)
      ∷ (m.stock)
      ∷ (put_price m.price)
      ∷ (put_be32 m.tif)
      ∷ (m.firm)
      ∷ (byte m.display ∷ [])
      ∷ (byte m.capacity ∷ [])
      ∷ (byte m.intermarket_sweep ∷ [])
      ∷ (put_be32 m.min_qty)
      ∷ (byte m.cross_type ∷ [])
      ∷ (byte m.customer_type ∷ [])
      ∷ []

  abbrev enter_order_sizes : List ℕ
  enter_order_sizes = 1 ∷ 14 ∷ 1 ∷ 4 ∷ 8 ∷ 4 ∷ 4 ∷ 4 ∷ 1 ∷ 1 ∷ 1 ∷ 4 ∷ 1 ∷ 1 ∷ []

  enter_order-Sized : Sized enter_order_sizes enter_order_fields
  enter_order-Sized = (
    refl,
    (
      w.token_fits,
      (
        refl,
        (
          length-put_be32 m.shares,
          (
            w.stock_fits,
            (
              length-put_price m.price,
              (
                length-put_be32 m.tif,
                (
                  w.firm_fits,
                  (refl, (refl, (refl, (length-put_be32 m.min_qty, (refl, (refl, tt)))))),
                ),
              ),
            ),
          ),
        ),
      ),
    ),
  )

  enter_order_at :
      (k : ℕ)
      → drop (offset k enter_order_sizes) (concat enter_order_fields)
        ≡ concat (drop k enter_order_fields)
  enter_order_at = drop-concat enter_order_sizes enter_order_fields enter_order-Sized

  pub length-encode_enter_order : length (encode_enter_order m) ≡ 49
  unfolding encode_enter_order
  length-encode_enter_order = length-concat enter_order_sizes enter_order_fields enter_order-Sized

  pub type-encode_enter_order : char_at 0 (encode_enter_order m) ≡ b'O'
  unfolding encode_enter_order char_at
  type-encode_enter_order = refl

  pub decode_enter_order-encode_enter_order : decode_enter_order (encode_enter_order m) ≡ some m
  unfolding decode_enter_order encode_enter_order char_at
  decode_enter_order-encode_enter_order =
      rw
        (
          length-concat enter_order_sizes enter_order_fields enter_order-Sized,
          enter_order_at 1,
          enter_order_at 2,
          enter_order_at 3,
          enter_order_at 4,
          enter_order_at 5,
          enter_order_at 6,
          enter_order_at 7,
          enter_order_at 8,
          enter_order_at 9,
          enter_order_at 10,
          enter_order_at 11,
          enter_order_at 12,
          enter_order_at 13,
        )
        (ground (
          arith,
          take-append m.token (concat (drop 2 enter_order_fields)) 14 w.token_fits,
          byte_lem m.side w.side_fits,
          get_be32-put_be32 m.shares (concat (drop 4 enter_order_fields)) w.shares_fits,
          take-append m.stock (concat (drop 5 enter_order_fields)) 8 w.stock_fits,
          get_price-put_price m.price (concat (drop 6 enter_order_fields)) w.price_fits,
          get_be32-put_be32 m.tif (concat (drop 7 enter_order_fields)) w.tif_fits,
          take-append m.firm (concat (drop 8 enter_order_fields)) 4 w.firm_fits,
          byte_lem m.display w.display_fits,
          byte_lem m.capacity w.capacity_fits,
          byte_lem m.intermarket_sweep w.intermarket_sweep_fits,
          get_be32-put_be32 m.min_qty (concat (drop 12 enter_order_fields)) w.min_qty_fits,
          byte_lem m.cross_type w.cross_type_fits,
          byte_lem m.customer_type w.customer_type_fits,
        ))

pub record IsCancelOrder (m : CancelOrder) : Type 0 where
  pub token_fits : length m.token ≡ 14
  pub shares_fits : m.shares < 2 ^ 32

module _ (m : CancelOrder) (w : IsCancelOrder m) where
  abbrev cancel_order_fields : List (List ℕ)
  cancel_order_fields = (b'X' ∷ []) ∷ (m.token) ∷ (put_be32 m.shares) ∷ []

  abbrev cancel_order_sizes : List ℕ
  cancel_order_sizes = 1 ∷ 14 ∷ 4 ∷ []

  cancel_order-Sized : Sized cancel_order_sizes cancel_order_fields
  cancel_order-Sized = (refl, (w.token_fits, (length-put_be32 m.shares, tt)))

  cancel_order_at :
      (k : ℕ)
      → drop (offset k cancel_order_sizes) (concat cancel_order_fields)
        ≡ concat (drop k cancel_order_fields)
  cancel_order_at = drop-concat cancel_order_sizes cancel_order_fields cancel_order-Sized

  pub length-encode_cancel_order : length (encode_cancel_order m) ≡ 19
  unfolding encode_cancel_order
  length-encode_cancel_order =
      length-concat cancel_order_sizes cancel_order_fields cancel_order-Sized

  pub type-encode_cancel_order : char_at 0 (encode_cancel_order m) ≡ b'X'
  unfolding encode_cancel_order char_at
  type-encode_cancel_order = refl

  pub decode_cancel_order-encode_cancel_order : decode_cancel_order (encode_cancel_order m) ≡ some m
  unfolding decode_cancel_order encode_cancel_order char_at
  decode_cancel_order-encode_cancel_order =
      rw
        (
          length-concat cancel_order_sizes cancel_order_fields cancel_order-Sized,
          cancel_order_at 1,
          cancel_order_at 2,
        )
        (ground (
          arith,
          take-append m.token (concat (drop 2 cancel_order_fields)) 14 w.token_fits,
          get_be32-put_be32 m.shares (concat (drop 3 cancel_order_fields)) w.shares_fits,
        ))

pub record IsReplaceOrder (m : ReplaceOrder) : Type 0 where
  pub existing_token_fits : length m.existing_token ≡ 14
  pub replacement_token_fits : length m.replacement_token ≡ 14
  pub shares_fits : m.shares < 2 ^ 32
  pub price_fits : IsWirePrice m.price
  pub tif_fits : m.tif < 2 ^ 32
  pub display_fits : m.display < 2 ^ 8
  pub intermarket_sweep_fits : m.intermarket_sweep < 2 ^ 8
  pub min_qty_fits : m.min_qty < 2 ^ 32

module _ (m : ReplaceOrder) (w : IsReplaceOrder m) where
  abbrev replace_order_fields : List (List ℕ)
  replace_order_fields =
      (b'U' ∷ [])
      ∷ (m.existing_token)
      ∷ (m.replacement_token)
      ∷ (put_be32 m.shares)
      ∷ (put_price m.price)
      ∷ (put_be32 m.tif)
      ∷ (byte m.display ∷ [])
      ∷ (byte m.intermarket_sweep ∷ [])
      ∷ (put_be32 m.min_qty)
      ∷ []

  abbrev replace_order_sizes : List ℕ
  replace_order_sizes = 1 ∷ 14 ∷ 14 ∷ 4 ∷ 4 ∷ 4 ∷ 1 ∷ 1 ∷ 4 ∷ []

  replace_order-Sized : Sized replace_order_sizes replace_order_fields
  replace_order-Sized = (
    refl,
    (
      w.existing_token_fits,
      (
        w.replacement_token_fits,
        (
          length-put_be32 m.shares,
          (
            length-put_price m.price,
            (length-put_be32 m.tif, (refl, (refl, (length-put_be32 m.min_qty, tt)))),
          ),
        ),
      ),
    ),
  )

  replace_order_at :
      (k : ℕ)
      → drop (offset k replace_order_sizes) (concat replace_order_fields)
        ≡ concat (drop k replace_order_fields)
  replace_order_at = drop-concat replace_order_sizes replace_order_fields replace_order-Sized

  pub length-encode_replace_order : length (encode_replace_order m) ≡ 47
  unfolding encode_replace_order
  length-encode_replace_order =
      length-concat replace_order_sizes replace_order_fields replace_order-Sized

  pub type-encode_replace_order : char_at 0 (encode_replace_order m) ≡ b'U'
  unfolding encode_replace_order char_at
  type-encode_replace_order = refl

  pub decode_replace_order-encode_replace_order :
      decode_replace_order (encode_replace_order m) ≡ some m
  unfolding decode_replace_order encode_replace_order char_at
  decode_replace_order-encode_replace_order =
      rw
        (
          length-concat replace_order_sizes replace_order_fields replace_order-Sized,
          replace_order_at 1,
          replace_order_at 2,
          replace_order_at 3,
          replace_order_at 4,
          replace_order_at 5,
          replace_order_at 6,
          replace_order_at 7,
          replace_order_at 8,
        )
        (ground (
          arith,
          take-append m.existing_token (concat (drop 2 replace_order_fields)) 14
              w.existing_token_fits,
          take-append m.replacement_token (concat (drop 3 replace_order_fields)) 14
              w.replacement_token_fits,
          get_be32-put_be32 m.shares (concat (drop 4 replace_order_fields)) w.shares_fits,
          get_price-put_price m.price (concat (drop 5 replace_order_fields)) w.price_fits,
          get_be32-put_be32 m.tif (concat (drop 6 replace_order_fields)) w.tif_fits,
          byte_lem m.display w.display_fits,
          byte_lem m.intermarket_sweep w.intermarket_sweep_fits,
          get_be32-put_be32 m.min_qty (concat (drop 9 replace_order_fields)) w.min_qty_fits,
        ))
