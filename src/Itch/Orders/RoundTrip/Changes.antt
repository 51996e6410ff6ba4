-- ===== src/Itch/Orders/RoundTrip/Changes.antt =====
-- Reading back the messages of src/itch/itch.hpp that shrink, delete and replace an order.
use nasdaq_matching_engine.Common.{ℕ, ◌^◌, ◌≡◌, ◌<◌, refl, List, [], ◌∷◌, some, length, drop, arith}
use nasdaq_matching_engine.Endian.{put_be32, put_be64}
use nasdaq_matching_engine.Endian.Layout.{concat, char_at, put_price}
use nasdaq_matching_engine.Endian.RoundTrip.{
  length-put_be32, length-put_be64, get_be32-put_be32, get_be64-put_be64,
}
use nasdaq_matching_engine.Endian.Layout.{
  Sized, offset, drop-concat, length-concat, IsWirePrice, length-put_price, get_price-put_price,
}
use nasdaq_matching_engine.Itch.{put_header}
use nasdaq_matching_engine.Itch.HeaderTrip.{IsHeader, length-put_header, get_header-put_header}
use nasdaq_matching_engine.Itch.Orders.{
  OrderCancel, OrderDelete, OrderReplace, encode_order_cancel, encode_order_delete,
  encode_order_replace, decode_order_cancel, decode_order_delete, decode_order_replace,
}

pub record IsOrderCancel (m : OrderCancel) : Type 0 where
  pub header_fits : IsHeader m.header
  pub order_ref_fits : m.order_ref < 2 ^ 64
  pub canceled_shares_fits : m.canceled_shares < 2 ^ 32

module _ (m : OrderCancel) (w : IsOrderCancel m) where
  abbrev order_cancel_parts : List (List ℕ)
  order_cancel_parts =
      (put_header b'X' m.header) ∷ (put_be64 m.order_ref) ∷ (put_be32 m.canceled_shares) ∷ []

  abbrev order_cancel_sizes : List ℕ
  order_cancel_sizes = 11 ∷ 8 ∷ 4 ∷ []

  order_cancel-Sized : Sized order_cancel_sizes order_cancel_parts
  order_cancel-Sized = (
    length-put_header b'X' m.header,
    (length-put_be64 m.order_ref, (length-put_be32 m.canceled_shares, tt)),
  )

  order_cancel_at :
      (k : ℕ)
      → drop (offset k order_cancel_sizes) (concat order_cancel_parts)
        ≡ concat (drop k order_cancel_parts)
  order_cancel_at = drop-concat order_cancel_sizes order_cancel_parts order_cancel-Sized

  pub length-encode_order_cancel : length (encode_order_cancel m) ≡ 23
  unfolding encode_order_cancel
  length-encode_order_cancel =
      length-concat order_cancel_sizes order_cancel_parts order_cancel-Sized

  pub type-encode_order_cancel : char_at 0 (encode_order_cancel m) ≡ b'X'
  unfolding encode_order_cancel char_at put_header
  type-encode_order_cancel = refl

  pub decode_order_cancel-encode_order_cancel : decode_order_cancel (encode_order_cancel m) ≡ some m
  unfolding decode_order_cancel encode_order_cancel char_at
  decode_order_cancel-encode_order_cancel =
      rw
        (
          length-concat order_cancel_sizes order_cancel_parts order_cancel-Sized,
          order_cancel_at 1,
          order_cancel_at 2,
        )
        (ground (
          arith,
          get_header-put_header b'X' m.header (concat (drop 1 order_cancel_parts)) w.header_fits,
          get_be64-put_be64 m.order_ref (concat (drop 2 order_cancel_parts)) w.order_ref_fits,
          get_be32-put_be32 m.canceled_shares (concat (drop 3 order_cancel_parts))
              w.canceled_shares_fits,
        ))

pub record IsOrderDelete (m : OrderDelete) : Type 0 where
  pub header_fits : IsHeader m.header
  pub order_ref_fits : m.order_ref < 2 ^ 64

module _ (m : OrderDelete) (w : IsOrderDelete m) where
  abbrev order_delete_parts : List (List ℕ)
  order_delete_parts = (put_header b'D' m.header) ∷ (put_be64 m.order_ref) ∷ []

  abbrev order_delete_sizes : List ℕ
  order_delete_sizes = 11 ∷ 8 ∷ []

  order_delete-Sized : Sized order_delete_sizes order_delete_parts
  order_delete-Sized = (length-put_header b'D' m.header, (length-put_be64 m.order_ref, tt))

  order_delete_at :
      (k : ℕ)
      → drop (offset k order_delete_sizes) (concat order_delete_parts)
        ≡ concat (drop k order_delete_parts)
  order_delete_at = drop-concat order_delete_sizes order_delete_parts order_delete-Sized

  pub length-encode_order_delete : length (encode_order_delete m) ≡ 19
  unfolding encode_order_delete
  length-encode_order_delete =
      length-concat order_delete_sizes order_delete_parts order_delete-Sized

  pub type-encode_order_delete : char_at 0 (encode_order_delete m) ≡ b'D'
  unfolding encode_order_delete char_at put_header
  type-encode_order_delete = refl

  pub decode_order_delete-encode_order_delete : decode_order_delete (encode_order_delete m) ≡ some m
  unfolding decode_order_delete encode_order_delete char_at
  decode_order_delete-encode_order_delete =
      rw (length-concat order_delete_sizes order_delete_parts order_delete-Sized, order_delete_at 1)
        (ground (
          arith,
          get_header-put_header b'D' m.header (concat (drop 1 order_delete_parts)) w.header_fits,
          get_be64-put_be64 m.order_ref (concat (drop 2 order_delete_parts)) w.order_ref_fits,
        ))

pub record IsOrderReplace (m : OrderReplace) : Type 0 where
  pub header_fits : IsHeader m.header
  pub original_ref_fits : m.original_ref < 2 ^ 64
  pub new_ref_fits : m.new_ref < 2 ^ 64
  pub shares_fits : m.shares < 2 ^ 32
  pub price_fits : IsWirePrice m.price

module _ (m : OrderReplace) (w : IsOrderReplace m) where
  abbrev order_replace_parts : List (List ℕ)
  order_replace_parts =
      (put_header b'U' m.header)
      ∷ (put_be64 m.original_ref)
      ∷ (put_be64 m.new_ref)
      ∷ (put_be32 m.shares)
      ∷ (put_price m.price)
      ∷ []

  abbrev order_replace_sizes : List ℕ
  order_replace_sizes = 11 ∷ 8 ∷ 8 ∷ 4 ∷ 4 ∷ []

  order_replace-Sized : Sized order_replace_sizes order_replace_parts
  order_replace-Sized = (
    length-put_header b'U' m.header,
    (
      length-put_be64 m.original_ref,
      (length-put_be64 m.new_ref, (length-put_be32 m.shares, (length-put_price m.price, tt))),
    ),
  )

  order_replace_at :
      (k : ℕ)
      → drop (offset k order_replace_sizes) (concat order_replace_parts)
        ≡ concat (drop k order_replace_parts)
  order_replace_at = drop-concat order_replace_sizes order_replace_parts order_replace-Sized

  pub length-encode_order_replace : length (encode_order_replace m) ≡ 35
  unfolding encode_order_replace
  length-encode_order_replace =
      length-concat order_replace_sizes order_replace_parts order_replace-Sized

  pub type-encode_order_replace : char_at 0 (encode_order_replace m) ≡ b'U'
  unfolding encode_order_replace char_at put_header
  type-encode_order_replace = refl

  pub decode_order_replace-encode_order_replace :
      decode_order_replace (encode_order_replace m) ≡ some m
  unfolding decode_order_replace encode_order_replace char_at
  decode_order_replace-encode_order_replace =
      rw
        (
          length-concat order_replace_sizes order_replace_parts order_replace-Sized,
          order_replace_at 1,
          order_replace_at 2,
          order_replace_at 3,
          order_replace_at 4,
        )
        (ground (
          arith,
          get_header-put_header b'U' m.header (concat (drop 1 order_replace_parts)) w.header_fits,
          get_be64-put_be64 m.original_ref (concat (drop 2 order_replace_parts))
              w.original_ref_fits,
          get_be64-put_be64 m.new_ref (concat (drop 3 order_replace_parts)) w.new_ref_fits,
          get_be32-put_be32 m.shares (concat (drop 4 order_replace_parts)) w.shares_fits,
          get_price-put_price m.price (concat (drop 5 order_replace_parts)) w.price_fits,
        ))
