-- ===== src/Itch/Codec/Refusing.antt =====
-- Which payloads `decode` of src/itch/itch.hpp refuses.
use mathlib.Core.Option
use nasdaq_matching_engine.Common.{
  ℕ, ◌≡◌, ◌<◌, List, Option, none, some, Bool, true, false, not, ◌&&◌, ◌||◌, ◌==◌, if◌then◌else◌,
  length, arith,
}
use nasdaq_matching_engine.Endian.Layout.{char_at}
use nasdaq_matching_engine.Itch.Market.{
  decode_system_event, decode_stock_directory, decode_trading_action, decode_trade,
}
use nasdaq_matching_engine.Itch.Orders.{
  decode_add_order, decode_add_order_mpid, decode_order_cancel, decode_order_delete,
  decode_order_replace,
}
use nasdaq_matching_engine.Itch.Fills.{decode_order_executed, decode_order_executed_with_price}
use nasdaq_matching_engine.Itch.Codec.{decode, message_size}

abbrev pub is_some {ℓ} : {A : Type ℓ} → Option A → Bool
is_some none = false
is_some (some x) = true

-- The types that have a case in `decode`.
unfoldable pub is_decoded : ℕ → Bool
is_decoded type =
    type == b'S'
    || (type == b'R'
        || (type == b'H'
            || (type == b'A'
                || (type == b'F'
                    || (type == b'E'
                        || (type == b'C'
                            || (type == b'X'
                                || (type == b'D' || (type == b'U' || type == b'P')))))))))

-- What `decode` gives for a payload of length `l`, once the cases have given `d`.
abbrev unless_empty {ℓ} : {A : Type ℓ} → ℕ → Option A → Option A
unless_empty l d = if l == 0 then none else d

-- A case: its decoder tests the length alone.
unless_empty-map {ℓ ℓ'} :
    {A : Type ℓ} {B : Type ℓ'} (f : A → B) (l n : ℕ) (m : A)
    → 0 < n
    → is_some (unless_empty l (Option.map f (if not (l == n) then none else some m))) ≡ (l == n)
unless_empty-map f l n m h = ground arith

-- One more case in front of those that give `y`.
one_case {ℓ} :
    {A : Type ℓ} (b known : Bool) (l sx sy : ℕ) (x y : Option A)
    → is_some (unless_empty l x) ≡ (l == sx)
    → is_some (unless_empty l y) ≡ (known && (l == sy))
    → is_some (unless_empty l (if b then x else y))
      ≡ ((b || known) && (l == (if b then sx else sy)))
one_case true known l sx sy x y h k = h
one_case false known l sx sy x y h k = k

last_case {ℓ} :
    {A : Type ℓ} (b : Bool) (l sx sy : ℕ) (x : Option A)
    → is_some (unless_empty l x) ≡ (l == sx)
    → is_some (unless_empty {A = A} l (if b then x else none))
      ≡ (b && (l == (if b then sx else sy)))
last_case true l sx sy x h = h
last_case false l sx sy x h = ground arith

-- `decode` accepts a payload just where its first byte has a case and its length is the `message_size`
-- of that type, whatever stands in memory behind it; it refuses every other payload, an empty one too.
pub decode_accepts :
    (behind p : List ℕ)
    → is_some (decode behind p)
      ≡ (is_decoded (char_at 0 p) && (length p == message_size (char_at 0 p)))
unfolding decode message_size is_decoded decode_system_event decode_stock_directory
    decode_trading_action decode_trade decode_add_order decode_add_order_mpid decode_order_cancel
    decode_order_delete decode_order_replace decode_order_executed decode_order_executed_with_price
decode_accepts behind p =
    let l = length p in
    let t = char_at 0 p in
    one_case (t == b'S') _ l _ _ _ _ (unless_empty-map _ l _ _ (omega arith)) (
      one_case (t == b'R') _ l _ _ _ _ (unless_empty-map _ l _ _ (omega arith)) (
        one_case (t == b'H') _ l _ _ _ _ (unless_empty-map _ l _ _ (omega arith)) (
          one_case (t == b'A') _ l _ _ _ _ (unless_empty-map _ l _ _ (omega arith)) (
            one_case (t == b'F') _ l _ _ _ _ (unless_empty-map _ l _ _ (omega arith)) (
              one_case (t == b'E') _ l _ _ _ _ (unless_empty-map _ l _ _ (omega arith)) (
                one_case (t == b'C') _ l _ _ _ _ (unless_empty-map _ l _ _ (omega arith)) (
                  one_case (t == b'X') _ l _ _ _ _ (unless_empty-map _ l _ _ (omega arith)) (
                    one_case (t == b'D') _ l _ _ _ _ (unless_empty-map _ l _ _ (omega arith)) (
                      one_case (t == b'U') _ l _ _ _ _ (unless_empty-map _ l _ _ (omega arith)) (
                        last_case (t == b'P') l _ _ _
                          (unless_empty-map _ l _ _ (omega arith))))))))))))
