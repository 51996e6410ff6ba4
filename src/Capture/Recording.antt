-- ===== src/Capture/Recording.antt =====
-- Capture files of src/feed/capture.cpp, whole and cut off.
use mathlib.Core.List.{append_assoc, append-nil}
use nasdaq_matching_engine.Common.{
  ℕ, zero, suc, ◌%◌, ◌^◌, ◌<◌, ◌≤◌, ◌≡◌, refl, sym, ap, ◌∙◌, List, [], ◌∷◌, ◌++◌, none, some, false,
  ltb, All, arith, length, take, length-append, take-append, drop-append,
}
use nasdaq_matching_engine.Endian.{put_be16, put_be64, get_be16}
use nasdaq_matching_engine.Endian.RoundTrip.{get_be16-put_be16, get_be64-put_be64}
use nasdaq_matching_engine.Capture.{
  CaptureRecord, new_capture, write_record, same_bytes, open_capture, next_record, write_records,
  read_records, read_capture,
}

-- The time has 64 bits and the datagram a length of 16.
pub record IsRecord (r : CaptureRecord) : Type 0 where
  pub time : r.ts_ns < 2 ^ 64
  pub size : length r.bytes < 2 ^ 16

abbrev one_record : CaptureRecord → List ℕ
one_record r = write_record r []

all_records : List CaptureRecord → List ℕ
all_records [] = []
all_records (r ∷ rs) = one_record r ++ all_records rs

write_records-file :
    (rs : List CaptureRecord) (file : List ℕ) → write_records rs file ≡ file ++ all_records rs
unfolding write_records all_records write_record
write_records-file [] file = sym (append-nil file)
write_records-file (r ∷ rs) file =
    write_records-file rs (write_record r file) ∙ append_assoc file (one_record r) (all_records rs)

next_record-record :
    (r : CaptureRecord) (rest : List ℕ)
    → IsRecord r
    → next_record (one_record r ++ rest) ≡ some (r, rest)
unfolding next_record write_record put_be64 put_be16
next_record-record r rest w =
    let len : get_be16 (put_be16 (length r.bytes % 2 ^ 16) ++ (r.bytes ++ rest)) ≡ length r.bytes =
      omega (
        arith,
        get_be16-put_be16 (length r.bytes % 2 ^ 16) (r.bytes ++ rest) (omega arith),
        w.size,
      ) in
    let time =
      get_be64-put_be64 r.ts_ns (put_be16 (length r.bytes % 2 ^ 16) ++ (r.bytes ++ rest)) w.time in
    let enough : ltb (length (r.bytes ++ rest)) (length r.bytes) ≡ false =
      ground (arith, length-append r.bytes rest) in
    let long : ltb (length (one_record r ++ rest)) 10 ≡ false = ground arith in
    rw
      (
        long,
        len,
        time,
        enough,
        take-append r.bytes rest (length r.bytes) refl,
        drop-append r.bytes rest (length r.bytes) refl,
      )
      refl

length-take_le : (k : ℕ) (xs : List ℕ) → length (take k xs) ≤ k
length-take_le zero xs = omega arith
length-take_le (suc k) [] = omega arith
length-take_le (suc k) (x ∷ xs) = omega (arith, length-take_le k xs)

next_record-cut :
    (r : CaptureRecord) (k : ℕ)
    → IsRecord r
    → k < length (one_record r)
    → next_record (take k (one_record r)) ≡ none
unfolding next_record write_record put_be64 put_be16
next_record-cut r zero w h = refl
next_record-cut r (suc zero) w h = refl
next_record-cut r (suc (suc zero)) w h = refl
next_record-cut r (suc (suc (suc zero))) w h = refl
next_record-cut r (suc (suc (suc (suc zero)))) w h = refl
next_record-cut r (suc (suc (suc (suc (suc zero))))) w h = refl
next_record-cut r (suc (suc (suc (suc (suc (suc zero)))))) w h = refl
next_record-cut r (suc (suc (suc (suc (suc (suc (suc zero))))))) w h = refl
next_record-cut r (suc (suc (suc (suc (suc (suc (suc (suc zero)))))))) w h = refl
next_record-cut r (suc (suc (suc (suc (suc (suc (suc (suc (suc zero))))))))) w h = refl
next_record-cut r (suc (suc (suc (suc (suc (suc (suc (suc (suc (suc k)))))))))) w h = ground (
  arith,
  get_be16-put_be16 (length r.bytes % 2 ^ 16) (take k r.bytes) (omega arith),
  length-take_le k r.bytes,
)

read_on :
    (rs : List CaptureRecord) (cut : CaptureRecord) (k : ℕ)
    → All IsRecord rs
    → IsRecord cut
    → k < length (one_record cut)
    → read_records (suc (length rs)) (all_records rs ++ take k (one_record cut)) ≡ rs
unfolding read_records all_records
read_on [] cut k a w h = rw (read_records, next_record-cut cut k w h) refl
read_on (r ∷ rs) cut k (v, a) w h =
    rw
      (
        append_assoc (one_record r) (all_records rs) (take k (one_record cut)),
        read_records,
        next_record-record r (all_records rs ++ take k (one_record cut)) v,
      )
      (ap (λ l. r ∷ l) (read_on rs cut k a w h))

-- A reader over a capture file that ends in the first `k` bytes of one more record, fewer than the
-- whole, opens it, returns the whole records and then stops. The times have 64 bits and the datagrams
-- fewer than 2 ^ 16 bytes.
pub read_capture-write_records :
    (rs : List CaptureRecord) (cut : CaptureRecord) (k : ℕ)
    → All IsRecord rs
    → IsRecord cut
    → k < length (write_record cut [])
    → read_capture (suc (length rs)) (write_records rs new_capture ++ take k (write_record cut []))
      ≡ some rs
unfolding read_capture open_capture same_bytes
read_capture-write_records rs cut k a w h =
    rw
      (
        write_records-file rs new_capture,
        append_assoc new_capture (all_records rs) (take k (one_record cut)),
        read_on rs cut k a w h,
      )
      refl
