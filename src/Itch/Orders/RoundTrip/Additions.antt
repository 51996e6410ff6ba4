-- ===== src/Itch/Orders/RoundTrip/Additions.antt =====
-- Reading back the two messages of src/itch/itch.hpp that add an order.
use nasdaq_matching_engine.Common.{
  ℕ, ◌^◌, ◌≡◌, ◌<◌, refl, List, [], ◌∷◌, some, length, drop, arith, take-append,
}
use nasdaq_matching_engine.Endian.{byte, put_be32, put_be64}
use nasdaq_matching_engine.Endian.Layout.{concat, char_at, put_price}
use nasdaq_matching_engine.Endian.RoundTrip.{
  length-put_be32, length-put_be64, get_be32-put_be32, get_be64-put_be64,
}
use nasdaq_matching_engine.Endian.Layout.{
  Sized, offset, drop-concat, length-concat, IsWirePrice, length-put_price, get_price-put_price,
  byte_lem,
}
use nasdaq_matching_engine.Itch.{put_header}
use nasdaq_matching_engine.Itch.HeaderTrip.{IsHeader, length-put_header, get_header-put_header}
use nasdaq_matching_engine.Itch.Orders.{
  AddOrder, AddOrderMpid, encode_add_order, encode_add_order_mpid, decode_add_order,
  decode_add_order_mpid,
}

pub record IsAddOrder (m : AddOrder) : Type 0 where
  pub header_fits : IsHeader m.header
  pub order_ref_fits : m.order_ref < 2 ^ 64
  pub side_fits : m.side < 2 ^ 8
  pub shares_fits : m.shares < 2 ^ 32
  pub stock_fits : length m.stock ≡ 8
  pub price_fits : IsWirePrice m.price

module _ (m : AddOrder) (w : IsAddOrder m) where
  abbrev add_order_parts : List (List ℕ)
  add_order_parts =
      (put_header b'A' m.header)
      ∷ (put_be64 m.order_ref)
      ∷ (byte m.side ∷ [])
      ∷ (put_be32 m.shares)
      ∷ (m.stock)
      ∷ (put_price m.price)
      ∷ []

  abbrev add_order_sizes : List ℕ
  add_order_sizes = 11 ∷ 8 ∷ 1 ∷ 4 ∷ 8 ∷ 4 ∷ []

  add_order-Sized : Sized add_order_sizes add_order_parts
  add_order-Sized = (
    length-put_header b'A' m.header,
    (
      length-put_be64 m.order_ref,
      (refl, (length-put_be32 m.shares, (w.stock_fits, (length-put_price m.price, tt)))),
    ),
  )

  add_order_at :
      (k : ℕ)
      → drop (offset k add_order_sizes) (concat add_order_parts) ≡ concat (drop k add_order_parts)
  add_order_at = drop-concat add_order_sizes add_order_parts add_order-Sized

  pub length-encode_add_order : length (encode_add_order m) ≡ 36
  unfolding encode_add_order
  length-encode_add_order = length-concat add_order_sizes add_order_parts add_order-Sized

  pub type-encode_add_order : char_at 0 (encode_add_order m) ≡ b'A'
  unfolding encode_add_order char_at put_header
  type-encode_add_order = refl

  pub decode_add_order-encode_add_order : decode_add_order (encode_add_order m) ≡ some m
  unfolding decode_add_order encode_add_order char_at
  decode_add_order-encode_add_order =
      rw
        (
          length-concat add_order_sizes add_order_parts add_order-Sized,
          add_order_at 1,
          add_order_at 2,
          add_order_at 3,
          add_order_at 4,
          add_order_at 5,
        )
        (ground (
          arith,
          get_header-put_header b'A' m.header (concat (drop 1 add_order_parts)) w.header_fits,
          get_be64-put_be64 m.order_ref (concat (drop 2 add_order_parts)) w.order_ref_fits,
          byte_lem m.side w.side_fits,
          get_be32-put_be32 m.shares (concat (drop 4 add_order_parts)) w.shares_fits,
          take-append m.stock (concat (drop 5 add_order_parts)) 8 w.stock_fits,
          get_price-put_price m.price (concat (drop 6 add_order_parts)) w.price_fits,
        ))

pub record IsAddOrderMpid (m : AddOrderMpid) : Type 0 where
  pub add_fits : IsAddOrder m.add
  pub attribution_fits : length m.attribution ≡ 4

module _ (m : AddOrderMpid) (w : IsAddOrderMpid m) where
  abbrev add_order_mpid_parts : List (List ℕ)
  add_order_mpid_parts =
      (put_header b'F' m.add.header)
      ∷ (put_be64 m.add.order_ref)
      ∷ (byte m.add.side ∷ [])
      ∷ (put_be32 m.add.shares)
      ∷ (m.add.stock)
      ∷ (put_price m.add.price)
      ∷ (m.attribution)
      ∷ []

  abbrev add_order_mpid_sizes : List ℕ
  add_order_mpid_sizes = 11 ∷ 8 ∷ 1 ∷ 4 ∷ 8 ∷ 4 ∷ 4 ∷ []

  add_order_mpid-Sized : Sized add_order_mpid_sizes add_order_mpid_parts
  add_order_mpid-Sized = (
    length-put_header b'F' m.add.header,
    (
      length-put_be64 m.add.order_ref,
      (
        refl,
        (
          length-put_be32 m.add.shares,
          (w.add_fits.stock_fits, (length-put_price m.add.price, (w.attribution_fits, tt))),
        ),
      ),
    ),
  )

  add_order_mpid_at :
      (k : ℕ)
      → drop (offset k add_order_mpid_sizes) (concat add_order_mpid_parts)
        ≡ concat (drop k add_order_mpid_parts)
  add_order_mpid_at = drop-concat add_order_mpid_sizes add_order_mpid_parts add_order_mpid-Sized

  pub length-encode_add_order_mpid : length (encode_add_order_mpid m) ≡ 40
  unfolding encode_add_order_mpid
  length-encode_add_order_mpid =
      length-concat add_order_mpid_sizes add_order_mpid_parts add_order_mpid-Sized

  pub type-encode_add_order_mpid : char_at 0 (encode_add_order_mpid m) ≡ b'F'
  unfolding encode_add_order_mpid char_at put_header
  type-encode_add_order_mpid = refl

  pub decode_add_order_mpid-encode_add_order_mpid :
      decode_add_order_mpid (encode_add_order_mpid m) ≡ some m
  unfolding decode_add_order_mpid encode_add_order_mpid char_at
  decode_add_order_mpid-encode_add_order_mpid =
      rw
        (
          length-concat add_order_mpid_sizes add_order_mpid_parts add_order_mpid-Sized,
          add_order_mpid_at 1,
          add_order_mpid_at 2,
          add_order_mpid_at 3,
          add_order_mpid_at 4,
          add_order_mpid_at 5,
          add_order_mpid_at 6,
        )
        (ground (
          arith,
          get_header-put_header b'F' m.add.header (concat (drop 1 add_order_mpid_parts))
              w.add_fits.header_fits,
          get_be64-put_be64 m.add.order_ref (concat (drop 2 add_order_mpid_parts))
              w.add_fits.order_ref_fits,
          byte_lem m.add.side w.add_fits.side_fits,
          get_be32-put_be32 m.add.shares (concat (drop 4 add_order_mpid_parts))
              w.add_fits.shares_fits,
          take-append m.add.stock (concat (drop 5 add_order_mpid_parts)) 8 w.add_fits.stock_fits,
          get_price-put_price m.add.price (concat (drop 6 add_order_mpid_parts))
              w.add_fits.price_fits,
          take-append m.attribution (concat (drop 7 add_order_mpid_parts)) 4 w.attribution_fits,
        ))
