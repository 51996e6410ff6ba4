-- ===== src/Ouch/Outbound/RoundTrip/Replacements.antt =====
-- Reading back `Replaced` of src/ouch/ouch.hpp.
use nasdaq_matching_engine.Common.{
  ℕ, ◌^◌, ◌≡◌, ◌<◌, refl, List, [], ◌∷◌, some, length, drop, arith, take-append,
}
use nasdaq_matching_engine.Endian.{byte, put_be32, put_be64}
use nasdaq_matching_engine.Endian.Layout.{concat, char_at, put_price}
use nasdaq_matching_engine.Endian.RoundTrip.{
  length-put_be32, length-put_be64, get_be32-put_be32, get_be64-put_be64,
}
use nasdaq_matching_engine.Endian.Layout.{
  Sized, offset, drop-concat, length-concat, IsWirePrice, length-put_price, get_price-put_price,
  byte_lem,
}
use nasdaq_matching_engine.Ouch.Outbound.{Replaced, encode_replaced, decode_replaced}

pub record IsReplaced (m : Replaced) : Type 0 where
  pub timestamp_fits : m.timestamp < 2 ^ 64
  pub replacement_token_fits : length m.replacement_token ≡ 14
  pub side_fits : m.side < 2 ^ 8
  pub shares_fits : m.shares < 2 ^ 32
  pub stock_fits : length m.stock ≡ 8
  pub price_fits : IsWirePrice m.price
  pub tif_fits : m.tif < 2 ^ 32
  pub firm_fits : length m.firm ≡ 4
  pub display_fits : m.display < 2 ^ 8
  pub order_ref_fits : m.order_ref < 2 ^ 64
  pub capacity_fits : m.capacity < 2 ^ 8
  pub intermarket_sweep_fits : m.intermarket_sweep < 2 ^ 8
  pub min_qty_fits : m.min_qty < 2 ^ 32
  pub cross_type_fits : m.cross_type < 2 ^ 8
  pub order_state_fits : m.order_state < 2 ^ 8
  pub bbo_weight_indicator_fits : m.bbo_weight_indicator < 2 ^ 8
  pub previous_token_fits : length m.previous_token ≡ 14

module _ (m : Replaced) (w : IsReplaced m) where
  abbrev replaced_fields : List (List ℕ)
  replaced_fields =
      (b'U' ∷ [])
      ∷ (put_be64 m.timestamp)
      ∷ (m.replacement_token)
      ∷ (byte m.side ∷ [])
      ∷ (put_be32 m.shares)
      ∷ (m.stock)
      ∷ (put_price m.price)
      ∷ (put_be32 m.tif)
      ∷ (m.firm)
      ∷ (byte m.display ∷ [])
      ∷ (put_be64 m.order_ref)
      ∷ (byte m.capacity ∷ [])
      ∷ (byte m.intermarket_sweep ∷ [])
      ∷ (put_be32 m.min_qty)
      ∷ (byte m.cross_type ∷ [])
      ∷ (byte m.order_state ∷ [])
      ∷ (byte m.bbo_weight_indicator ∷ [])
      ∷ (m.previous_token)
      ∷ []

  abbrev replaced_sizes : List ℕ
  replaced_sizes = 1 ∷ 8 ∷ 14 ∷ 1 ∷ 4 ∷ 8 ∷ 4 ∷ 4 ∷ 4 ∷ 1 ∷ 8 ∷ 1 ∷ 1 ∷ 4 ∷ 1 ∷ 1 ∷ 1 ∷ 14 ∷ []

  replaced-Sized : Sized replaced_sizes replaced_fields
  replaced-Sized = (
    refl,
    (
      length-put_be64 m.timestamp,
      (
        w.replacement_token_fits,
        (
          refl,
          (
            length-put_be32 m.shares,
            (
              w.stock_fits,
              (
                length-put_price m.price,
                (
                  length-put_be32 m.tif,
                  (
                    w.firm_fits,
                    (
                      refl,
                      (
                        length-put_be64 m.order_ref,
                        (
                          refl,
                          (
                            refl,
                            (
                              length-put_be32 m.min_qty,
                              (refl, (refl, (refl, (w.previous_token_fits, tt)))),
                            ),
                          ),
                        ),
                      ),
                    ),
                  ),
                ),
              ),
            ),
          ),
        ),
      ),
    ),
  )

  replaced_at :
      (k : ℕ)
      → drop (offset k replaced_sizes) (concat replaced_fields) ≡ concat (drop k replaced_fields)
  replaced_at = drop-concat replaced_sizes replaced_fields replaced-Sized

  pub length-encode_replaced : length (encode_replaced m) ≡ 80
  unfolding encode_replaced
  length-encode_replaced = length-concat replaced_sizes replaced_fields replaced-Sized

  pub type-encode_replaced : char_at 0 (encode_replaced m) ≡ b'U'
  unfolding encode_replaced char_at
  type-encode_replaced = refl

  pub decode_replaced-encode_replaced : decode_replaced (encode_replaced m) ≡ some m
  unfolding decode_replaced encode_replaced char_at
  decode_replaced-encode_replaced =
      rw
        (
          length-concat replaced_sizes replaced_fields replaced-Sized,
          replaced_at 1,
          replaced_at 2,
          replaced_at 3,
          replaced_at 4,
          replaced_at 5,
          replaced_at 6,
          replaced_at 7,
          replaced_at 8,
          replaced_at 9,
          replaced_at 10,
          replaced_at 11,
          replaced_at 12,
          replaced_at 13,
          replaced_at 14,
          replaced_at 15,
          replaced_at 16,
          replaced_at 17,
        )
        (ground (
          arith,
          get_be64-put_be64 m.timestamp (concat (drop 2 replaced_fields)) w.timestamp_fits,
          take-append m.replacement_token (concat (drop 3 replaced_fields)) 14
              w.replacement_token_fits,
          byte_lem m.side w.side_fits,
          get_be32-put_be32 m.shares (concat (drop 5 replaced_fields)) w.shares_fits,
          take-append m.stock (concat (drop 6 replaced_fields)) 8 w.stock_fits,
          get_price-put_price m.price (concat (drop 7 replaced_fields)) w.price_fits,
          get_be32-put_be32 m.tif (concat (drop 8 replaced_fields)) w.tif_fits,
          take-append m.firm (concat (drop 9 replaced_fields)) 4 w.firm_fits,
          byte_lem m.display w.display_fits,
          get_be64-put_be64 m.order_ref (concat (drop 11 replaced_fields)) w.order_ref_fits,
          byte_lem m.capacity w.capacity_fits,
          byte_lem m.intermarket_sweep w.intermarket_sweep_fits,
          get_be32-put_be32 m.min_qty (concat (drop 14 replaced_fields)) w.min_qty_fits,
          byte_lem m.cross_type w.cross_type_fits,
          byte_lem m.order_state w.order_state_fits,
          byte_lem m.bbo_weight_indicator w.bbo_weight_indicator_fits,
          take-append m.previous_token (concat (drop 18 replaced_fields)) 14 w.previous_token_fits,
        ))
