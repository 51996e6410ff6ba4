-- ===== src/Itch/Raw.antt =====
-- src/itch/raw_itch.hpp: files of messages behind 2-byte lengths. The file is the list of the bytes
-- left in it: `fread` of n bytes takes them, or all that are left, where it returns fewer than n.
-- The reader's error text is a data type with what the text names.
pub mod Reading
use nasdaq_matching_engine.Common.{
  ℕ, zero, suc, ◌+◌, ◌%◌, ◌^◌, List, [], ◌∷◌, ◌++◌, Option, none, some, ◌==◌, ltb, not, ◌&&◌,
  if◌then◌else◌, length, take, drop,
}
use nasdaq_matching_engine.Common.Words.{add64}
use nasdaq_matching_engine.Endian.{put_be16, get_be16}
use nasdaq_matching_engine.Endian.Layout.{char_at}
use nasdaq_matching_engine.Itch.Codec.{message_size}

-- The 2-byte length keeps the low 16 bits of `n`.
unfoldable pub append_raw : List ℕ → List ℕ → List ℕ
append_raw out msg = out ++ (put_be16 (length msg % 2 ^ 16) ++ msg)

pub data RawError : Type 0 where
  zero_length : ℕ → RawError
  bad_length : ℕ → ℕ → ℕ → ℕ → RawError

pub record RawItchReader : Type 0 where
  pub file : List ℕ
  pub offset : ℕ
  pub error : Option RawError

unfoldable pub open_raw : List ℕ → RawItchReader
open_raw bytes = record { file = bytes; offset = 0; error = none }

unfoldable pub next_raw : RawItchReader → Option (List ℕ) × RawItchReader
unfolding char_at
next_raw r =
    if ltb (length r.file) 2
    then (none, record { file = []; offset = r.offset; error = r.error })
    else let len = get_be16 r.file in
      let rest = drop 2 r.file in
      if len == 0
      then (none, record { file = rest; offset = r.offset; error = some (zero_length r.offset) })
      else if ltb (length rest) len
      then (none, record { file = []; offset = r.offset; error = r.error })
      else let msg = take len rest in
        let expect = message_size (char_at 0 msg) in
        if not (expect == 0) && not (expect == len)
        then (
          none,
          record {
            file = drop len rest;
            offset = r.offset;
            error = some (bad_length (char_at 0 msg) len expect r.offset);
          },
        )
        else (
          some msg,
          record { file = drop len rest; offset = add64 r.offset (2 + len); error = r.error },
        )

-- A caller's loop over `next`, for at most as many rounds as the fuel.
pub keep_reading :
    Option (List ℕ) → RawItchReader → List (List ℕ) × RawItchReader → List (List ℕ) × RawItchReader
keep_reading none r rest = ([], r)
keep_reading (some m) r (ms, last) = (m ∷ ms, last)

pub read_all : ℕ → RawItchReader → List (List ℕ) × RawItchReader
read_all zero r = ([], r)
read_all (suc n) r = let (m, next) = next_raw r in keep_reading m next (read_all n next)

-- A writer's loop over `append_raw`.
pub write_all : List (List ℕ) → List ℕ → List ℕ
write_all [] out = out
write_all (m ∷ ms) out = write_all ms (append_raw out m)
