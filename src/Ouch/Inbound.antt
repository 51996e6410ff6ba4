-- ===== src/Ouch/Inbound.antt =====
-- The inbound messages of src/ouch/ouch.hpp. A char array is the list of its chars, and `side`, an
-- enum over char that any byte of the wire is cast to, is its char. `encode` lists the fields in the
-- order of their places in the buffer; `decode` reads each at its place.
pub mod RoundTrip
use nasdaq_matching_engine.Common.{
  ℕ, ◌^◌, ◌%◌, ◌≡◌, ◌<◌, refl, not, ◌||◌, List, [], ◌∷◌, ◌++◌, Option, none, some, ◌==◌,
  if◌then◌else◌, length, take, drop, arith, take-append, true, false, ltb, ap,
}
use nasdaq_matching_engine.Common.Int.{lt?, pos, eq?}
use nasdaq_matching_engine.Types.{Price}
use nasdaq_matching_engine.Endian.{
  byte, put_be16, get_be16, put_be32, get_be32, put_be48, get_be48, put_be64, get_be64,
}
use nasdaq_matching_engine.Endian.Layout.{concat, char_at, put_price, get_price}

abbrev pub enter_order_size : ℕ
enter_order_size = 49

pub record EnterOrder : Type 0 where
  pub token : List ℕ
  pub side : ℕ
  pub shares : ℕ
  pub stock : List ℕ
  pub price : Price
  pub tif : ℕ
  pub firm : List ℕ
  pub display : ℕ
  pub capacity : ℕ
  pub intermarket_sweep : ℕ
  pub min_qty : ℕ
  pub cross_type : ℕ
  pub customer_type : ℕ

unfoldable pub encode_enter_order : EnterOrder → List ℕ
unfolding put_price
encode_enter_order m = concat (
    (b'O' ∷ [])
    ∷ (m.token)
    ∷ (byte m.side ∷ [])
    ∷ (put_be32 m.shares)
    ∷ (m.stock)
    ∷ (put_price m.price)
    ∷ (put_be32 m.tif)
    ∷ (m.firm)
    ∷ (byte m.display ∷ [])
    ∷ (byte m.capacity ∷ [])
    ∷ (byte m.intermarket_sweep ∷ [])
    ∷ (put_be32 m.min_qty)
    ∷ (byte m.cross_type ∷ [])
    ∷ (byte m.customer_type ∷ [])
    ∷ [])

unfoldable pub decode_enter_order : List ℕ → Option EnterOrder
unfolding get_price char_at
decode_enter_order p =
    if not (length p == enter_order_size) || not (char_at 0 p == b'O')
    then none
    else some (record {
      token = take 14 (drop 1 p);
      side = char_at 15 p;
      shares = get_be32 (drop 16 p);
      stock = take 8 (drop 20 p);
      price = get_price (drop 28 p);
      tif = get_be32 (drop 32 p);
      firm = take 4 (drop 36 p);
      display = char_at 40 p;
      capacity = char_at 41 p;
      intermarket_sweep = char_at 42 p;
      min_qty = get_be32 (drop 43 p);
      cross_type = char_at 47 p;
      customer_type = char_at 48 p;
    })

abbrev pub cancel_order_size : ℕ
cancel_order_size = 19

pub record CancelOrder : Type 0 where
  pub token : List ℕ
  pub shares : ℕ

unfoldable pub encode_cancel_order : CancelOrder → List ℕ
unfolding put_price
encode_cancel_order m = concat ((b'X' ∷ []) ∷ (m.token) ∷ (put_be32 m.shares) ∷ [])

unfoldable pub decode_cancel_order : List ℕ → Option CancelOrder
unfolding get_price char_at
decode_cancel_order p =
    if not (length p == cancel_order_size) || not (char_at 0 p == b'X')
    then none
    else some (record { token = take 14 (drop 1 p); shares = get_be32 (drop 15 p) })

abbrev pub replace_order_size : ℕ
replace_order_size = 47

pub record ReplaceOrder : Type 0 where
  pub existing_token : List ℕ
  pub replacement_token : List ℕ
  pub shares : ℕ
  pub price : Price
  pub tif : ℕ
  pub display : ℕ
  pub intermarket_sweep : ℕ
  pub min_qty : ℕ

unfoldable pub encode_replace_order : ReplaceOrder → List ℕ
unfolding put_price
encode_replace_order m = concat (
    (b'U' ∷ [])
    ∷ (m.existing_token)
    ∷ (m.replacement_token)
    ∷ (put_be32 m.shares)
    ∷ (put_price m.price)
    ∷ (put_be32 m.tif)
    ∷ (byte m.display ∷ [])
    ∷ (byte m.intermarket_sweep ∷ [])
    ∷ (put_be32 m.min_qty)
    ∷ [])

unfoldable pub decode_replace_order : List ℕ → Option ReplaceOrder
unfolding get_price char_at
decode_replace_order p =
    if not (length p == replace_order_size) || not (char_at 0 p == b'U')
    then none
    else some (record {
      existing_token = take 14 (drop 1 p);
      replacement_token = take 14 (drop 15 p);
      shares = get_be32 (drop 29 p);
      price = get_price (drop 33 p);
      tif = get_be32 (drop 37 p);
      display = char_at 41 p;
      intermarket_sweep = char_at 42 p;
      min_qty = get_be32 (drop 43 p);
    })
