-- ===== src/Endian.antt =====
-- src/common/endian.hpp: big-endian fields as lists of bytes. `>> 8` is `/ 2 ^ 8`, the cast to
-- uint8_t is `% 2 ^ 8`, and `|` joins shifted bytes that do not overlap, so it is `+`. A reader takes
-- the bytes from the place that its pointer has; every caller has checked the length before.
pub mod RoundTrip
pub mod Layout
use nasdaq_matching_engine.Common.{ℕ, ◌+◌, ◌*◌, ◌/◌, ◌%◌, ◌^◌, List, [], ◌∷◌, ◌++◌, get_or, drop}

abbrev pub byte : ℕ → ℕ
byte v = v % 2 ^ 8

unfoldable pub put_be16 : ℕ → List ℕ
put_be16 v = byte (v / 2 ^ 8) ∷ byte v ∷ []

unfoldable pub get_be16 : List ℕ → ℕ
get_be16 p = get_or p 0 0 * 2 ^ 8 + get_or p 1 0

unfoldable pub put_be32 : ℕ → List ℕ
put_be32 v = byte (v / 2 ^ 24) ∷ byte (v / 2 ^ 16) ∷ byte (v / 2 ^ 8) ∷ byte v ∷ []

unfoldable pub get_be32 : List ℕ → ℕ
get_be32 p = get_or p 0 0 * 2 ^ 24 + get_or p 1 0 * 2 ^ 16 + get_or p 2 0 * 2 ^ 8 + get_or p 3 0

-- The low 48 bits.
unfoldable pub put_be48 : ℕ → List ℕ
put_be48 v =
    byte (v / 2 ^ 40)
    ∷ byte (v / 2 ^ 32)
    ∷ byte (v / 2 ^ 24)
    ∷ byte (v / 2 ^ 16)
    ∷ byte (v / 2 ^ 8)
    ∷ byte v
    ∷ []

unfoldable pub get_be48 : List ℕ → ℕ
get_be48 p =
    get_or p 0 0 * 2 ^ 40
    + get_or p 1 0 * 2 ^ 32
    + get_or p 2 0 * 2 ^ 24
    + get_or p 3 0 * 2 ^ 16
    + get_or p 4 0 * 2 ^ 8
    + get_or p 5 0

unfoldable pub put_be64 : ℕ → List ℕ
unfolding put_be32
put_be64 v = put_be32 (v / 2 ^ 32 % 2 ^ 32) ++ put_be32 (v % 2 ^ 32)

unfoldable pub get_be64 : List ℕ → ℕ
unfolding get_be32
get_be64 p = get_be32 p * 2 ^ 32 + get_be32 (drop 4 p)
