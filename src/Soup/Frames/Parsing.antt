-- ===== src/Soup/Frames/Parsing.antt =====
-- The parser of src/soup/soup.cpp against a plain reading of the bytes that it has not consumed.
use nasdaq_matching_engine.Common.{
  ℕ, zero, suc, ◌+◌, ◌-◌, ◌*◌, ◌≤◌, ◌<◌, ◌≡◌, refl, sym, ap, ◌∙◌, List, [], ◌∷◌, ◌++◌, Option, none,
  some, ltb, ◌&&◌, ◌||◌, if◌then◌else◌, length, take, drop, arith, length-drop, length-append,
  Bool-cases, inl, inr,
}
use nasdaq_matching_engine.Endian.{get_be16}
use nasdaq_matching_engine.Endian.Layout.{char_at}
use nasdaq_matching_engine.Soup.Frames.{
  Packet, FrameParser, new_parser, push_bytes, compact, next_packet,
}

-- The bytes that are not consumed.
abbrev pub pending : FrameParser → List ℕ
pending p = drop p.consumed p.buf

pub IsParser : FrameParser → Type 0
IsParser p = p.consumed ≤ length p.buf

pub new_parser-IsParser : IsParser new_parser
unfolding IsParser
new_parser-IsParser = omega arith

-- The first packet of some bytes and the bytes behind it.
abbrev pub frame : List ℕ → Option (Packet × List ℕ)
frame bytes =
    let len = get_be16 bytes in
    if ltb (length bytes) 2 || (ltb len 1 || ltb (length bytes) (2 + len))
    then none
    else some (
      (record { type = char_at 2 bytes; payload = take (len - 1) (drop 3 bytes) }),
      drop (2 + len) bytes,
    )

drop_nil : (a : ℕ) → drop {A = ℕ} a [] ≡ []
drop_nil zero = refl
drop_nil (suc a) = refl

pub drop-drop : (a b : ℕ) (xs : List ℕ) → drop a (drop b xs) ≡ drop (b + a) xs
drop-drop a zero xs = let e : a ≡ 0 + a = omega arith in ap (λ n. drop n xs) e
drop-drop a (suc b) [] = drop_nil a ∙ sym (drop_nil (suc b + a))
drop-drop a (suc b) (x ∷ xs) =
    let e : suc (b + a) ≡ suc b + a = omega arith in drop-drop a b xs ∙ ap (λ n. drop n (x ∷ xs)) e

pending-compact : (p : FrameParser) → pending (compact p) ≡ pending p
unfolding compact
pending-compact p = elim (Bool-cases (ltb 4096 p.consumed && ltb (length p.buf) (p.consumed * 2))) [
  | inl h ↦ rw h refl
  | inr h ↦ rw h refl
]

compact-IsParser : (p : FrameParser) → IsParser p → IsParser (compact p)
unfolding compact IsParser
compact-IsParser p w =
    elim (Bool-cases (ltb 4096 p.consumed && ltb (length p.buf) (p.consumed * 2))) [
      | inl h ↦ rw h (omega arith)
      | inr h ↦ rw h w
    ]

pub push_bytes-IsParser : (c : List ℕ) (p : FrameParser) → IsParser p → IsParser (push_bytes c p)
unfolding push_bytes IsParser
push_bytes-IsParser c p w = omega (arith, length-append p.buf c)

drop-append_le : (n : ℕ) (xs ys : List ℕ) → n ≤ length xs → drop n (xs ++ ys) ≡ drop n xs ++ ys
drop-append_le zero xs ys h = refl
drop-append_le (suc n) [] ys h = absurd (omega arith)
drop-append_le (suc n) (x ∷ xs) ys h = drop-append_le n xs ys (omega arith)

take-append_le : (n : ℕ) (xs ys : List ℕ) → n ≤ length xs → take n (xs ++ ys) ≡ take n xs
take-append_le zero xs ys h = refl
take-append_le (suc n) [] ys h = absurd (omega arith)
take-append_le (suc n) (x ∷ xs) ys h = ap (◌∷◌ x) (take-append_le n xs ys (omega arith))

pub pending-push_bytes :
    (c : List ℕ) (p : FrameParser) → IsParser p → pending (push_bytes c p) ≡ pending p ++ c
unfolding push_bytes IsParser
pending-push_bytes c p w = drop-append_le p.consumed p.buf c w

-- `next_packet` finds no packet where `frame` finds none, and leaves the parser as it is.
pub next_packet-none : (p : FrameParser) → frame (pending p) ≡ none → next_packet p ≡ (none, p)
unfolding next_packet
next_packet-none p h = ground (arith, length-drop p.consumed p.buf)

abbrev first_packet : List ℕ → Packet
first_packet bytes = record {
  type = char_at 2 bytes;
  payload = take (get_be16 bytes - 1) (drop 3 bytes);
}

frame-some :
    (bytes : List ℕ) (pk : Packet) (rest : List ℕ)
    → frame bytes ≡ some (pk, rest)
    → (first_packet bytes ≡ pk)
      × ((drop (2 + get_be16 bytes) bytes ≡ rest)
          × ((2 + get_be16 bytes ≤ length bytes) × (1 ≤ get_be16 bytes)))
frame-some bytes pk rest h = (ground arith, (ground arith, (ground arith, ground arith)))

-- Where `frame` finds a packet, `next_packet` returns it, and what is then pending is the rest.
pub next_packet-some :
    (p : FrameParser) (pk : Packet) (rest : List ℕ)
    → IsParser p
    → frame (pending p) ≡ some (pk, rest)
    → (q : FrameParser) × ((next_packet p ≡ (some pk, q)) × ((pending q ≡ rest) × IsParser q))
unfolding next_packet IsParser
next_packet-some p pk rest w h =
    let (same, (left, (fits, long))) = frame-some (pending p) pk rest h in
    let len = get_be16 (pending p) in
    let q : FrameParser = record { buf = p.buf; consumed = p.consumed + (2 + len) } in
    let size = length-drop p.consumed p.buf in
    (
      compact q,
      (
        ground (arith, size, same, fits, long),
        (
          pending-compact q ∙ sym (drop-drop (2 + len) p.consumed p.buf) ∙ left,
          compact-IsParser q (omega (arith, size, fits)),
        ),
      ),
    )

-- More bytes behind it do not change the first packet.
pub frame-append :
    (bytes more : List ℕ) (pk : Packet) (rest : List ℕ)
    → frame bytes ≡ some (pk, rest)
    → frame (bytes ++ more) ≡ some (pk, rest ++ more)
unfolding get_be16 char_at
frame-append [] more pk rest h = ground arith
frame-append (x ∷ []) more pk rest h = ground arith
frame-append (x ∷ y ∷ []) more pk rest h = ground arith
frame-append (x ∷ y ∷ z ∷ t) more pk rest h =
    let (same, (left, (fits, long))) = frame-some (x ∷ y ∷ z ∷ t) pk rest h in
    let len = get_be16 (x ∷ y ∷ z ∷ t) in
    let size = length-append t more in
    let payload = take-append_le (len - 1) t more (omega (arith, fits)) in
    let behind = drop-append_le (2 + len) (x ∷ y ∷ z ∷ t) more fits in
    ground (arith, same, left, fits, long, size, payload, behind)

pub frame-shorter :
    (bytes : List ℕ) (pk : Packet) (rest : List ℕ)
    → frame bytes ≡ some (pk, rest)
    → length rest < length bytes
frame-shorter bytes pk rest h =
    let (same, (left, (fits, long))) = frame-some bytes pk rest h in
    omega (arith, fits, length-drop (2 + get_be16 bytes) bytes, ap length left)
