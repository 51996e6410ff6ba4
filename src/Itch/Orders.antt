-- ===== src/Itch/Orders.antt =====
-- The messages of src/itch/itch.hpp on orders that enter, shrink or leave the book. A message that
-- the source builds from another and a new type byte has its fields.
pub mod RoundTrip
use nasdaq_matching_engine.Common.{
  ℕ, ◌^◌, ◌%◌, ◌≡◌, ◌<◌, refl, not, ◌||◌, List, [], ◌∷◌, ◌++◌, Option, none, some, ◌==◌,
  if◌then◌else◌, length, take, drop, arith, take-append, true, false, ltb, ap,
}
use nasdaq_matching_engine.Types.{Price}
use nasdaq_matching_engine.Endian.{
  byte, put_be16, get_be16, put_be32, get_be32, put_be48, get_be48, put_be64, get_be64,
}
use nasdaq_matching_engine.Endian.Layout.{concat, char_at, put_price, get_price}
use nasdaq_matching_engine.Itch.{Header, put_header, get_header}

abbrev pub add_order_size : ℕ
add_order_size = 36

pub record AddOrder : Type 0 where
  pub header : Header
  pub order_ref : ℕ
  pub side : ℕ
  pub shares : ℕ
  pub stock : List ℕ
  pub price : Price

abbrev pub add_order_fields : ℕ → AddOrder → List (List ℕ)
add_order_fields type m =
    (put_header type m.header)
    ∷ (put_be64 m.order_ref)
    ∷ (byte m.side ∷ [])
    ∷ (put_be32 m.shares)
    ∷ (m.stock)
    ∷ (put_price m.price)
    ∷ []

unfoldable pub encode_add_order : AddOrder → List ℕ
encode_add_order m = concat (add_order_fields b'A' m)

unfoldable pub decode_add_order : List ℕ → Option AddOrder
unfolding get_header get_price char_at
decode_add_order p =
    if not (length p == add_order_size)
    then none
    else some (record {
      header = get_header p;
      order_ref = get_be64 (drop 11 p);
      side = char_at 19 p;
      shares = get_be32 (drop 20 p);
      stock = take 8 (drop 24 p);
      price = get_price (drop 32 p);
    })

abbrev pub add_order_mpid_size : ℕ
add_order_mpid_size = 40

pub record AddOrderMpid : Type 0 where
  pub add : AddOrder
  pub attribution : List ℕ

unfoldable pub encode_add_order_mpid : AddOrderMpid → List ℕ
unfolding put_header put_price
encode_add_order_mpid m = concat (add_order_fields b'F' m.add ++ (m.attribution) ∷ [])

unfoldable pub decode_add_order_mpid : List ℕ → Option AddOrderMpid
unfolding get_header get_price char_at
decode_add_order_mpid p =
    if not (length p == add_order_mpid_size)
    then none
    else some (record {
      add = record {
        header = get_header p;
        order_ref = get_be64 (drop 11 p);
        side = char_at 19 p;
        shares = get_be32 (drop 20 p);
        stock = take 8 (drop 24 p);
        price = get_price (drop 32 p);
      };
      attribution = take 4 (drop 36 p);
    })

abbrev pub order_cancel_size : ℕ
order_cancel_size = 23

pub record OrderCancel : Type 0 where
  pub header : Header
  pub order_ref : ℕ
  pub canceled_shares : ℕ

unfoldable pub encode_order_cancel : OrderCancel → List ℕ
unfolding put_header put_price
encode_order_cancel m =
    concat ((put_header b'X' m.header) ∷ (put_be64 m.order_ref) ∷ (put_be32 m.canceled_shares) ∷ [])

unfoldable pub decode_order_cancel : List ℕ → Option OrderCancel
unfolding get_header get_price char_at
decode_order_cancel p =
    if not (length p == order_cancel_size)
    then none
    else some (record {
      header = get_header p;
      order_ref = get_be64 (drop 11 p);
      canceled_shares = get_be32 (drop 19 p);
    })

abbrev pub order_delete_size : ℕ
order_delete_size = 19

pub record OrderDelete : Type 0 where
  pub header : Header
  pub order_ref : ℕ

unfoldable pub encode_order_delete : OrderDelete → List ℕ
unfolding put_header put_price
encode_order_delete m = concat ((put_header b'D' m.header) ∷ (put_be64 m.order_ref) ∷ [])

unfoldable pub decode_order_delete : List ℕ → Option OrderDelete
unfolding get_header get_price char_at
decode_order_delete p =
    if not (length p == order_delete_size)
    then none
    else some (record { header = get_header p; order_ref = get_be64 (drop 11 p) })

abbrev pub order_replace_size : ℕ
order_replace_size = 35

pub record OrderReplace : Type 0 where
  pub header : Header
  pub original_ref : ℕ
  pub new_ref : ℕ
  pub shares : ℕ
  pub price : Price

unfoldable pub encode_order_replace : OrderReplace → List ℕ
unfolding put_header put_price
encode_order_replace m = concat (
    (put_header b'U' m.header)
    ∷ (put_be64 m.original_ref)
    ∷ (put_be64 m.new_ref)
    ∷ (put_be32 m.shares)
    ∷ (put_price m.price)
    ∷ [])

unfoldable pub decode_order_replace : List ℕ → Option OrderReplace
unfolding get_header get_price char_at
decode_order_replace p =
    if not (length p == order_replace_size)
    then none
    else some (record {
      header = get_header p;
      original_ref = get_be64 (drop 11 p);
      new_ref = get_be64 (drop 19 p);
      shares = get_be32 (drop 27 p);
      price = get_price (drop 31 p);
    })
