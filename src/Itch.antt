-- ===== src/Itch.antt =====
-- src/itch/itch.hpp, the ITCH 5.0 codec, and src/itch/raw_itch.hpp: the header that every message
-- starts with. A char is its code, and a char array the list of its chars.
pub mod HeaderTrip
pub mod Market
pub mod Orders
pub mod Fills
pub mod Codec
pub mod Raw
use nasdaq_matching_engine.Common.{ℕ, List, ◌∷◌, ◌++◌, drop}
use nasdaq_matching_engine.Endian.{put_be16, get_be16, put_be48, get_be48}

pub record Header : Type 0 where
  pub stock_locate : ℕ
  pub tracking : ℕ
  pub timestamp : ℕ

unfoldable pub put_header : ℕ → Header → List ℕ
put_header type h = type ∷ put_be16 h.stock_locate ++ put_be16 h.tracking ++ put_be48 h.timestamp

unfoldable pub get_header : List ℕ → Header
get_header p = record {
  stock_locate = get_be16 (drop 1 p);
  tracking = get_be16 (drop 3 p);
  timestamp = get_be48 (drop 5 p);
}
