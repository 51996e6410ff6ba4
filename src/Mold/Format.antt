-- ===== src/Mold/Format.antt =====
-- The MoldUDP64 packet of src/mold/mold.hpp as a format, a header and blocks, and how `parse`
-- reads it.
use mathlib.Core.List.{append_assoc, append-nil}
use nasdaq_matching_engine.Common.{
  ℕ, suc, ◌^◌, ◌<◌, ◌≡◌, refl, ap, false, List, [], ◌∷◌, ◌++◌, some, arith, length, take, drop,
  length-append, take-append, drop-append, All,
}
use nasdaq_matching_engine.Endian.{put_be16, put_be64}
use nasdaq_matching_engine.Endian.RoundTrip.{
  length-put_be16, length-put_be64, get_be16-put_be16, get_be64-put_be64,
}
use nasdaq_matching_engine.Mold.{make_header, parse_blocks, parse, put_count}

abbrev pub Message : Type 0
Message = List ℕ

unfoldable pub body : List Message → List ℕ
body [] = []
body (m ∷ ms) = put_be16 (length m) ++ (m ++ body ms)

abbrev pub packet : List ℕ → ℕ → List Message → List ℕ
packet session seq msgs = make_header session seq (length msgs) ++ body msgs

abbrev pub IsMessage : Message → Type 0
IsMessage m = length m < 2 ^ 16

parse_block :
    (n : ℕ) (m tail : List ℕ) {msgs : List Message} {left : List ℕ}
    → IsMessage m
    → parse_blocks n tail ≡ some (msgs, left)
    → parse_blocks (suc n) (put_be16 (length m) ++ (m ++ tail)) ≡ some (m ∷ msgs, left)
unfolding parse_blocks
parse_block n m tail h e =
    rw
      (
        get_be16-put_be16 (length m) (m ++ tail) h,
        drop_length m tail,
        take-append m tail (length m) refl,
        drop-append m tail (length m) refl,
        e,
      )
      (ground (
        arith,
        length-append (put_be16 (length m)) (m ++ tail),
        length-put_be16 (length m),
        length-append m tail,
      ))
  where
    drop_length : (m tail : List ℕ) → drop 2 (put_be16 (length m) ++ (m ++ tail)) ≡ m ++ tail
    drop_length m tail =
        drop-append (put_be16 (length m)) (m ++ tail) 2 (length-put_be16 (length m))

parse_blocks-body :
    (msgs : List Message) (rest : List ℕ)
    → All IsMessage msgs
    → parse_blocks (length msgs) (body msgs ++ rest) ≡ some (msgs, rest)
parse_blocks-body [] rest h = unfold parse_blocks body in refl
parse_blocks-body (m ∷ ms) rest (h, hs) =
    body_cons m ms rest
      (parse_block (length ms) m (body ms ++ rest) h (parse_blocks-body ms rest hs))
  where
    body_cons :
        (m : Message) (ms : List Message) (rest : List ℕ)
        → parse_blocks (suc (length ms)) (put_be16 (length m) ++ (m ++ (body ms ++ rest)))
          ≡ some (m ∷ ms, rest)
        → parse_blocks (suc (length ms)) (body (m ∷ ms) ++ rest) ≡ some (m ∷ ms, rest)
    body_cons m ms rest e =
        unfold body in
        rw (append_assoc (put_be16 (length m)) (m ++ body ms) rest, append_assoc m (body ms) rest) e

module _ (session : List ℕ) (seq count : ℕ) (rest : List ℕ) (wide : length session ≡ 10) where
  abbrev header : List ℕ
  header = make_header session seq count ++ rest

  header_split : header ≡ session ++ (put_be64 seq ++ (put_be16 count ++ rest))
  unfolding make_header
  header_split = simp append_assoc

  header-session : take 10 header ≡ session
  header-session =
      rw header_split (take-append session (put_be64 seq ++ (put_be16 count ++ rest)) 10 wide)

  header-seq : drop 10 header ≡ put_be64 seq ++ (put_be16 count ++ rest)
  header-seq =
      rw header_split (drop-append session (put_be64 seq ++ (put_be16 count ++ rest)) 10 wide)

  front : length (session ++ put_be64 seq) ≡ 18
  front = omega (arith, wide, length-append session (put_be64 seq), length-put_be64 seq)

  header_front : header ≡ (session ++ put_be64 seq) ++ (put_be16 count ++ rest)
  unfolding make_header
  header_front = append_assoc (session ++ put_be64 seq) (put_be16 count) rest

  header-count : drop 18 header ≡ put_be16 count ++ rest
  header-count =
      rw header_front (drop-append (session ++ put_be64 seq) (put_be16 count ++ rest) 18 front)

  pub length-header : length (make_header session seq count) ≡ 20
  unfolding make_header
  length-header = omega (
    arith,
    front,
    length-append (session ++ put_be64 seq) (put_be16 count),
    length-put_be16 count,
  )

  header-body : drop 20 header ≡ rest
  header-body = drop-append (make_header session seq count) rest 20 length-header

  header-take : take 18 header ≡ session ++ put_be64 seq
  header-take =
      rw header_front (take-append (session ++ put_be64 seq) (put_be16 count ++ rest) 18 front)

  pub put_count-header : (n : ℕ) → put_count n header ≡ make_header session seq n ++ rest
  unfolding put_count make_header
  put_count-header n = rw (header-body, header-take) refl

-- `parse` reads back a packet of the format: a session of 10 chars, fewer than 65535 messages, each
-- shorter than 2 ^ 16 bytes.
pub parse-packet :
    (session : List ℕ) (seq : ℕ) (msgs : List Message)
    → length session ≡ 10
    → seq < 2 ^ 64
    → length msgs < 65535
    → All IsMessage msgs
    → parse (packet session seq msgs)
      ≡ some (record { session = session; seq = seq; end_of_session = false; messages = msgs })
unfolding parse
parse-packet session seq msgs wide hs hn hm =
    rw
      (
        header-session session seq (length msgs) (body msgs) wide,
        header-seq session seq (length msgs) (body msgs) wide,
        header-count session seq (length msgs) (body msgs) wide,
        header-body session seq (length msgs) (body msgs) wide,
        get_be64-put_be64 seq (put_be16 (length msgs) ++ body msgs) hs,
        get_be16-put_be16 (length msgs) (body msgs) (omega arith),
      )
      (ground (
        arith,
        parse_blocks-body msgs [] hm,
        ap (parse_blocks (length msgs)) (append-nil (body msgs)),
        length-append (make_header session seq (length msgs)) (body msgs),
        length-header session seq (length msgs) (body msgs) wide,
      ))
