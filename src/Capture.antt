-- ===== src/Capture.antt =====
-- src/feed/capture.cpp and capture.hpp: the capture file, a magic text and records of a time and a
-- datagram. A file is the list of its bytes, for the reader of the bytes left in it: `fread` of n bytes
-- takes them, or all that are left, where it returns fewer than n. Files that do not open are not
-- modelled, except by their magic.
pub mod Recording
use nasdaq_matching_engine.Common.{
  ℕ, zero, suc, ◌%◌, ◌^◌, Bool, true, false, List, [], ◌∷◌, ◌++◌, Option, none, some, ◌==◌, ◌&&◌,
  ltb, if◌then◌else◌, length, take, drop,
}
use nasdaq_matching_engine.Endian.{put_be16, put_be64, get_be16, get_be64}

-- "NSQCAP01"
abbrev pub capture_magic : List ℕ
capture_magic = 78 ∷ 83 ∷ 81 ∷ 67 ∷ 65 ∷ 80 ∷ 48 ∷ 49 ∷ []

pub record CaptureRecord : Type 0 where
  pub ts_ns : ℕ
  pub bytes : List ℕ

-- The constructor of the writer leaves a file with the magic.
abbrev pub new_capture : List ℕ
new_capture = capture_magic

-- `CaptureWriter::write`: the length keeps its low 16 bits.
unfoldable pub write_record : CaptureRecord → List ℕ → List ℕ
write_record r file = file ++ (put_be64 r.ts_ns ++ (put_be16 (length r.bytes % 2 ^ 16) ++ r.bytes))

unfoldable pub same_bytes : List ℕ → List ℕ → Bool
same_bytes [] ys = elim ys [ [] ↦ true | y ∷ zs ↦ false ]
same_bytes (x ∷ xs) ys = elim ys [ [] ↦ false | y ∷ zs ↦ (x == y) && same_bytes xs zs ]

-- The constructor of the reader: `none` is a file without the magic.
unfoldable pub open_capture : List ℕ → Option (List ℕ)
open_capture file = if same_bytes (take 8 file) capture_magic then some (drop 8 file) else none

-- `CaptureReader::next`: the record and what is left of the file.
unfoldable pub next_record : List ℕ → Option (CaptureRecord × List ℕ)
next_record file =
    let len = get_be16 (drop 8 file) in
    let rest = drop 10 file in
    if ltb (length file) 10
    then none
    else if ltb (length rest) len
    then none
    else some (record { ts_ns = get_be64 file; bytes = take len rest }, drop len rest)

-- A caller's loops over `write` and over `next`, the latter for at most as many rounds as the fuel.
pub write_records : List CaptureRecord → List ℕ → List ℕ
write_records [] file = file
write_records (r ∷ rs) file = write_records rs (write_record r file)

pub read_records : ℕ → List ℕ → List CaptureRecord
read_records zero file = []
read_records (suc n) file = elim (next_record file) [
  | none ↦ []
  | some (r, rest) ↦ r ∷ read_records n rest
]

-- Opens a file and reads what it holds.
unfoldable pub read_capture : ℕ → List ℕ → Option (List CaptureRecord)
read_capture n file = elim (open_capture file) [
  | none ↦ none
  | some rest ↦ some (read_records n rest)
]
