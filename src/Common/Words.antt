-- ===== src/Common/Words.antt =====
-- uint32_t and uint16_t arithmetic: plain numbers with the wrap-around written out.
use Prim.Native.Nat.{ℕ, ◌+◌, ◌-◌, ◌%◌, ◌^◌}

abbrev pub word32 : ℕ
word32 = 2 ^ 32

abbrev pub word64 : ℕ
word64 = 2 ^ 64

unfoldable pub add32 : ℕ → ℕ → ℕ
add32 a b = (a + b) % word32

-- The modulus is added first, since `-` stops at 0.
unfoldable pub sub32 : ℕ → ℕ → ℕ
sub32 a b = (a + (word32 - b % word32)) % word32

unfoldable pub add64 : ℕ → ℕ → ℕ
add64 a b = (a + b) % word64

unfoldable pub sub64 : ℕ → ℕ → ℕ
sub64 a b = (a + (word64 - b % word64)) % word64
