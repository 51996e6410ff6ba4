-- ===== src/Types.antt =====
-- src/common/types.hpp: the domain types that the engine and the codecs share. A `Price` is a
-- signed number of 1/10000 dollars, a `Qty` a number below 2 ^ 32, an `OrderId` one below 2 ^ 64,
-- and a char its code.
pub mod Padding
use nasdaq_matching_engine.Common.{ℕ, zero, suc, List, [], ◌∷◌, ◌==◌, if◌then◌else◌, get_or, take}
use nasdaq_matching_engine.Common.Int.{ℤ}

abbrev pub Price : Type 0
Price = ℤ

abbrev pub Qty : Type 0
Qty = ℕ

abbrev pub OrderId : Type 0
OrderId = ℕ

pub data Side : Type 0 where
  buy sell : Side

-- The loop that copies a view over a field of `n` spaces.
unfoldable pub fill_field : ℕ → List ℕ → List ℕ
fill_field zero sv = []
fill_field (suc n) [] = b' ' ∷ fill_field n []
fill_field (suc n) (c ∷ sv) = c ∷ fill_field n sv

-- A symbol is an array of 8 chars.
unfoldable pub make_symbol : List ℕ → List ℕ
make_symbol sv = fill_field 8 sv

-- The loop of `symbol_view` that lowers `len` past the spaces at the end.
unfoldable pub view_length : List ℕ → ℕ → ℕ
view_length s zero = 0
view_length s (suc len) =
    let rest = view_length s len in if get_or s len 0 == b' ' then rest else suc len

unfoldable pub symbol_view : List ℕ → List ℕ
symbol_view s = take (view_length s 8) s
