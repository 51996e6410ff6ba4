-- ===== src/Endian/RoundTrip.antt =====
-- Reading the fields of src/common/endian.hpp back, with anything behind them, and their widths.
use nasdaq_matching_engine.Common.{ℕ, ◌^◌, ◌<◌, ◌≡◌, refl, List, ◌++◌, arith, length}
use nasdaq_matching_engine.Endian.{
  put_be16, get_be16, put_be32, get_be32, put_be48, get_be48, put_be64, get_be64,
}

pub length-put_be16 : (v : ℕ) → length (put_be16 v) ≡ 2
unfolding put_be16
length-put_be16 v = refl

pub length-put_be32 : (v : ℕ) → length (put_be32 v) ≡ 4
unfolding put_be32
length-put_be32 v = refl

pub length-put_be48 : (v : ℕ) → length (put_be48 v) ≡ 6
unfolding put_be48
length-put_be48 v = refl

pub length-put_be64 : (v : ℕ) → length (put_be64 v) ≡ 8
unfolding put_be64
length-put_be64 v = refl

pub get_be16-put_be16 : (v : ℕ) (rest : List ℕ) → v < 2 ^ 16 → get_be16 (put_be16 v ++ rest) ≡ v
unfolding get_be16 put_be16
get_be16-put_be16 v rest h = omega arith

pub get_be32-put_be32 : (v : ℕ) (rest : List ℕ) → v < 2 ^ 32 → get_be32 (put_be32 v ++ rest) ≡ v
unfolding get_be32 put_be32
get_be32-put_be32 v rest h = omega arith

pub get_be48-put_be48 : (v : ℕ) (rest : List ℕ) → v < 2 ^ 48 → get_be48 (put_be48 v ++ rest) ≡ v
unfolding get_be48 put_be48
get_be48-put_be48 v rest h = omega arith

-- A 64-bit field reads back in two halves.
pub get_be64-put_be64 : (v : ℕ) (rest : List ℕ) → v < 2 ^ 64 → get_be64 (put_be64 v ++ rest) ≡ v
unfolding get_be64 put_be64
get_be64-put_be64 v rest h = omega arith
