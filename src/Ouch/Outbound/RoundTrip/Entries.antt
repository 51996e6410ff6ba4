-- ===== src/Ouch/Outbound/RoundTrip/Entries.antt =====
-- Reading back `SystemEvent` and `Accepted` of src/ouch/ouch.hpp.
use nasdaq_matching_engine.Common.{
  ℕ, ◌^◌, ◌≡◌, ◌<◌, refl, List, [], ◌∷◌, some, length, drop, arith, take-append,
}
use nasdaq_matching_engine.Endian.{byte, put_be32, put_be64}
use nasdaq_matching_engine.Endian.Layout.{concat, char_at, put_price}
use nasdaq_matching_engine.Endian.RoundTrip.{
  length-put_be32, length-put_be64, get_be32-put_be32, get_be64-put_be64,
}
use nasdaq_matching_engine.Endian.Layout.{
  Sized, offset, drop-concat, length-concat, IsWirePrice, length-put_price, get_price-put_price,
  byte_lem,
}
use nasdaq_matching_engine.Ouch.Outbound.{
  SystemEvent, Accepted, encode_system_event, encode_accepted, decode_system_event, decode_accepted,
}

pub record IsSystemEvent (m : SystemEvent) : Type 0 where
  pub timestamp_fits : m.timestamp < 2 ^ 64
  pub event_code_fits : m.event_code < 2 ^ 8

module _ (m : SystemEvent) (w : IsSystemEvent m) where
  abbrev system_event_fields : List (List ℕ)
  system_event_fields = (b'S' ∷ []) ∷ (put_be64 m.timestamp) ∷ (byte m.event_code ∷ []) ∷ []

  abbrev system_event_sizes : List ℕ
  system_event_sizes = 1 ∷ 8 ∷ 1 ∷ []

  system_event-Sized : Sized system_event_sizes system_event_fields
  system_event-Sized = (refl, (length-put_be64 m.timestamp, (refl, tt)))

  system_event_at :
      (k : ℕ)
      → drop (offset k system_event_sizes) (concat system_event_fields)
        ≡ concat (drop k system_event_fields)
  system_event_at = drop-concat system_event_sizes system_event_fields system_event-Sized

  pub length-encode_system_event : length (encode_system_event m) ≡ 10
  unfolding encode_system_event
  length-encode_system_event =
      length-concat system_event_sizes system_event_fields system_event-Sized

  pub type-encode_system_event : char_at 0 (encode_system_event m) ≡ b'S'
  unfolding encode_system_event char_at
  type-encode_system_event = refl

  pub decode_system_event-encode_system_event : decode_system_event (encode_system_event m) ≡ some m
  unfolding decode_system_event encode_system_event char_at
  decode_system_event-encode_system_event =
      rw
        (
          length-concat system_event_sizes system_event_fields system_event-Sized,
          system_event_at 1,
          system_event_at 2,
        )
        (ground (
          arith,
          get_be64-put_be64 m.timestamp (concat (drop 2 system_event_fields)) w.timestamp_fits,
          byte_lem m.event_code w.event_code_fits,
        ))

pub record IsAccepted (m : Accepted) : Type 0 where
  pub timestamp_fits : m.timestamp < 2 ^ 64
  pub token_fits : length m.token ≡ 14
  pub side_fits : m.side < 2 ^ 8
  pub shares_fits : m.shares < 2 ^ 32
  pub stock_fits : length m.stock ≡ 8
  pub price_fits : IsWirePrice m.price
  pub tif_fits : m.tif < 2 ^ 32
  pub firm_fits : length m.firm ≡ 4
  pub display_fits : m.display < 2 ^ 8
  pub order_ref_fits : m.order_ref < 2 ^ 64
  pub capacity_fits : m.capacity < 2 ^ 8
  pub intermarket_sweep_fits : m.intermarket_sweep < 2 ^ 8
  pub min_qty_fits : m.min_qty < 2 ^ 32
  pub cross_type_fits : m.cross_type < 2 ^ 8
  pub order_state_fits : m.order_state < 2 ^ 8
  pub bbo_weight_indicator_fits : m.bbo_weight_indicator < 2 ^ 8

module _ (m : Accepted) (w : IsAccepted m) where
  abbrev accepted_fields : List (List ℕ)
  accepted_fields =
      (b'A' ∷ [])
      ∷ (put_be64 m.timestamp)
      ∷ (m.token)
      ∷ (byte m.side ∷ [])
      ∷ (put_be32 m.shares)
      ∷ (m.stock)
      ∷ (put_price m.price)
      ∷ (put_be32 m.tif)
      ∷ (m.firm)
      ∷ (byte m.display ∷ [])
      ∷ (put_be64 m.order_ref)
      ∷ (byte m.capacity ∷ [])
      ∷ (byte m.intermarket_sweep ∷ [])
      ∷ (put_be32 m.min_qty)
      ∷ (byte m.cross_type ∷ [])
      ∷ (byte m.order_state ∷ [])
      ∷ (byte m.bbo_weight_indicator ∷ [])
      ∷ []

  abbrev accepted_sizes : List ℕ
  accepted_sizes = 1 ∷ 8 ∷ 14 ∷ 1 ∷ 4 ∷ 8 ∷ 4 ∷ 4 ∷ 4 ∷ 1 ∷ 8 ∷ 1 ∷ 1 ∷ 4 ∷ 1 ∷ 1 ∷ 1 ∷ []

  accepted-Sized : Sized accepted_sizes accepted_fields
  accepted-Sized = (
    refl,
    (
      length-put_be64 m.timestamp,
      (
        w.token_fits,
        (
          refl,
          (
            length-put_be32 m.shares,
            (
              w.stock_fits,
              (
                length-put_price m.price,
                (
                  length-put_be32 m.tif,
                  (
                    w.firm_fits,
                    (
                      refl,
                      (
                        length-put_be64 m.order_ref,
                        (refl, (refl, (length-put_be32 m.min_qty, (refl, (refl, (refl, tt)))))),
                      ),
                    ),
                  ),
                ),
              ),
            ),
          ),
        ),
      ),
    ),
  )

  accepted_at :
      (k : ℕ)
      → drop (offset k accepted_sizes) (concat accepted_fields) ≡ concat (drop k accepted_fields)
  accepted_at = drop-concat accepted_sizes accepted_fields accepted-Sized

  pub length-encode_accepted : length (encode_accepted m) ≡ 66
  unfolding encode_accepted
  length-encode_accepted = length-concat accepted_sizes accepted_fields accepted-Sized

  pub type-encode_accepted : char_at 0 (encode_accepted m) ≡ b'A'
  unfolding encode_accepted char_at
  type-encode_accepted = refl

  pub decode_accepted-encode_accepted : decode_accepted (encode_accepted m) ≡ some m
  unfolding decode_accepted encode_accepted char_at
  decode_accepted-encode_accepted =
      rw
        (
          length-concat accepted_sizes accepted_fields accepted-Sized,
          accepted_at 1,
          accepted_at 2,
          accepted_at 3,
          accepted_at 4,
          accepted_at 5,
          accepted_at 6,
          accepted_at 7,
          accepted_at 8,
          accepted_at 9,
          accepted_at 10,
          accepted_at 11,
          accepted_at 12,
          accepted_at 13,
          accepted_at 14,
          accepted_at 15,
          accepted_at 16,
        )
        (ground (
          arith,
          get_be64-put_be64 m.timestamp (concat (drop 2 accepted_fields)) w.timestamp_fits,
          take-append m.token (concat (drop 3 accepted_fields)) 14 w.token_fits,
          byte_lem m.side w.side_fits,
          get_be32-put_be32 m.shares (concat (drop 5 accepted_fields)) w.shares_fits,
          take-append m.stock (concat (drop 6 accepted_fields)) 8 w.stock_fits,
          get_price-put_price m.price (concat (drop 7 accepted_fields)) w.price_fits,
          get_be32-put_be32 m.tif (concat (drop 8 accepted_fields)) w.tif_fits,
          take-append m.firm (concat (drop 9 accepted_fields)) 4 w.firm_fits,
          byte_lem m.display w.display_fits,
          get_be64-put_be64 m.order_ref (concat (drop 11 accepted_fields)) w.order_ref_fits,
          byte_lem m.capacity w.capacity_fits,
          byte_lem m.intermarket_sweep w.intermarket_sweep_fits,
          get_be32-put_be32 m.min_qty (concat (drop 14 accepted_fields)) w.min_qty_fits,
          byte_lem m.cross_type w.cross_type_fits,
          byte_lem m.order_state w.order_state_fits,
          byte_lem m.bbo_weight_indicator w.bbo_weight_indicator_fits,
        ))
