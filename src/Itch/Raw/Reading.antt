-- ===== src/Itch/Raw/Reading.antt =====
-- Files of src/itch/raw_itch.hpp that `append_raw` wrote and that may be cut off anywhere.
use mathlib.Core.List.{append_assoc, append-nil}
use nasdaq_matching_engine.Common.{
  ℕ, zero, suc, ◌+◌, ◌%◌, ◌^◌, ◌<◌, ◌≤◌, ◌≡◌, ◌⊎◌, refl, sym, ap, ◌∙◌, List, [], ◌∷◌, ◌++◌, none,
  some, All, arith, length, take, length-append, take-append, drop-append,
}
use nasdaq_matching_engine.Common.Words.{add64, word64}
use nasdaq_matching_engine.Endian.{put_be16}
use nasdaq_matching_engine.Endian.RoundTrip.{get_be16-put_be16}
use nasdaq_matching_engine.Endian.Layout.{char_at}
use nasdaq_matching_engine.Itch.Codec.{message_size}
use nasdaq_matching_engine.Itch.Raw.{
  append_raw, open_raw, next_raw, keep_reading, read_all, write_all,
}

-- The message has a length that two bytes hold, and the one its type prescribes where it is known.
pub record IsRaw (m : List ℕ) : Type 0 where
  pub nonempty : 0 < length m
  pub fits : length m < 2 ^ 16
  pub framed : (message_size (char_at 0 m) ≡ 0) ⊎ (message_size (char_at 0 m) ≡ length m)

abbrev raw_record : List ℕ → List ℕ
raw_record m = append_raw [] m

raw_records : List (List ℕ) → List ℕ
raw_records [] = []
raw_records (m ∷ ms) = raw_record m ++ raw_records ms

write_all-out : (ms : List (List ℕ)) (out : List ℕ) → write_all ms out ≡ out ++ raw_records ms
unfolding write_all raw_records append_raw
write_all-out [] out = sym (append-nil out)
write_all-out (m ∷ ms) out =
    write_all-out ms (append_raw out m) ∙ append_assoc out (raw_record m) (raw_records ms)

next_raw-record :
    (m rest : List ℕ) (o : ℕ)
    → IsRaw m
    → next_raw (record { file = raw_record m ++ rest; offset = o; error = none })
      ≡ (some m, record { file = rest; offset = add64 o (2 + length m); error = none })
unfolding next_raw append_raw put_be16
next_raw-record m rest o w = ground (
  arith,
  w.framed,
  get_be16-put_be16 (length m % 2 ^ 16) (m ++ rest) (omega arith),
  length-append m rest,
  take-append m rest (length m) refl,
  drop-append m rest (length m) refl,
)

length-take_le : (k : ℕ) (xs : List ℕ) → length (take k xs) ≤ k
length-take_le zero xs = omega arith
length-take_le (suc k) [] = omega arith
length-take_le (suc k) (x ∷ xs) = omega (arith, length-take_le k xs)

next_raw-cut :
    (m : List ℕ) (k o : ℕ)
    → IsRaw m
    → k < length (raw_record m)
    → next_raw (record { file = take k (raw_record m); offset = o; error = none })
      ≡ (none, record { file = []; offset = o; error = none })
unfolding next_raw append_raw put_be16
next_raw-cut m zero o w h = refl
next_raw-cut m (suc zero) o w h = refl
next_raw-cut m (suc (suc k)) o w h =
    ground
      (arith, get_be16-put_be16 (length m % 2 ^ 16) (take k m) (omega arith), length-take_le k m)

length-record : (m : List ℕ) → length (raw_record m) ≡ 2 + length m
unfolding append_raw put_be16
length-record m = omega arith

add64-word64 : (a b : ℕ) → add64 a b < word64
unfolding add64
add64-word64 a b = omega arith

-- Reading from any offset, after any number of whole messages.
read_on :
    (ms : List (List ℕ)) (cut : List ℕ) (k o : ℕ)
    → All IsRaw ms
    → IsRaw cut
    → k < length (raw_record cut)
    → o < word64
    → read_all
        (suc (length ms))
        (record { file = raw_records ms ++ take k (raw_record cut); offset = o; error = none })
      ≡ (ms, record { file = []; offset = (o + length (raw_records ms)) % word64; error = none })
unfolding read_all keep_reading raw_records add64
read_on [] cut k o v w h b =
    let e : o ≡ (o + 0) % word64 = omega arith in
    rw (next_raw-cut cut k o w h) (ap (λ x. ([], record { file = []; offset = x; error = none })) e)
read_on (m ∷ ms) cut k o v w h b =
    let e : (add64 o (2 + length m) + length (raw_records ms)) % word64
        ≡ (o + length (raw_record m ++ raw_records ms)) % word64 =
      omega (arith, length-append (raw_record m) (raw_records ms), length-record m) in
    rw
      (
        append_assoc (raw_record m) (raw_records ms) (take k (raw_record cut)),
        next_raw-record m (raw_records ms ++ take k (raw_record cut)) o v.0,
        read_on ms cut k (add64 o (2 + length m)) v.1 w h (add64-word64 o (2 + length m)),
        e,
      )
      refl

-- A reader over a file of messages that ends in the first `k` bytes of one more, fewer than the
-- whole, returns the whole messages and then stops without an error, at the end of the last.
pub read_all-write_all :
    (ms : List (List ℕ)) (cut : List ℕ) (k : ℕ)
    → All IsRaw ms
    → IsRaw cut
    → k < length (append_raw [] cut)
    → read_all (suc (length ms)) (open_raw (write_all ms [] ++ take k (append_raw [] cut)))
      ≡ (ms, record { file = []; offset = length (write_all ms []) % 2 ^ 64; error = none })
unfolding open_raw
read_all-write_all ms cut k v w h =
    let e : 0 + length (raw_records ms) ≡ length (raw_records ms) = omega arith in
    rw (write_all-out ms []) (
      read_on ms cut k 0 v w h (omega arith)
      ∙ ap (λ x. (ms, record { file = []; offset = x % word64; error = none })) e)
