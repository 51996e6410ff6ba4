-- ===== src/Soup/Frames/Streams.antt =====
-- Streams of packets of src/soup/soup.cpp, cut into chunks anywhere.
use mathlib.Core.List.{append_assoc, append-nil}
use nasdaq_matching_engine.Common.{
  ℕ, zero, suc, ◌+◌, ◌%◌, ◌^◌, ◌<◌, ◌≡◌, refl, sym, ap, ◌∙◌, List, [], ◌∷◌, ◌++◌, none, some,
  length, drop, arith, length-drop, length-append, All, Option-cases, inl, inr, take-append,
  drop-append,
}
use nasdaq_matching_engine.Endian.{put_be16, get_be16}
use nasdaq_matching_engine.Endian.RoundTrip.{get_be16-put_be16}
use nasdaq_matching_engine.Endian.Layout.{char_at, concat}
use nasdaq_matching_engine.Soup.Frames.{
  Packet, FrameParser, new_parser, push_bytes, append_packet, write_packets, add_packet,
  drain_packets, receive,
}
use nasdaq_matching_engine.Soup.Frames.Parsing.{
  pending, IsParser, new_parser-IsParser, frame, drop-drop, next_packet-none, next_packet-some,
  frame-append, frame-shorter, push_bytes-IsParser, pending-push_bytes,
}

-- The packets of some bytes, in order, and the bytes left behind the last.
abbrev Parses : List ℕ → List Packet → List ℕ → Type 0
Parses bytes [] left = (frame bytes ≡ none) × (bytes ≡ left)
Parses bytes (pk ∷ ps) left =
    (rest : List ℕ) × ((frame bytes ≡ some (pk, rest)) × Parses rest ps left)

Parses-append :
    (ps qs : List Packet) (a b l m : List ℕ)
    → Parses a ps l
    → Parses (l ++ b) qs m
    → Parses (a ++ b) (ps ++ qs) m
Parses-append [] qs a b l m (h, e) k = rw e k
Parses-append (pk ∷ ps) qs a b l m (rest, (h, t)) k =
    (rest ++ b, (frame-append a b pk rest h, Parses-append ps qs rest b l m t k))

Parses-unique :
    (ps qs : List Packet) (a l m : List ℕ) → Parses a ps l → Parses a qs m → (ps ≡ qs) × (l ≡ m)
Parses-unique [] [] a l m (h, e) (k, f) = (refl, sym e ∙ f)
Parses-unique [] (q ∷ qs) a l m (h, e) (r, (k, t)) = ground arith
Parses-unique (p ∷ ps) [] a l m (r, (k, t)) (h, e) = ground arith
Parses-unique (p ∷ ps) (q ∷ qs) a l m (r, (h, t)) (s, (k, u)) =
    let same : p ≡ q = ground arith in
    let e : s ≡ r = ground arith in
    let u' : Parses r qs m = rw (sym e) u in
    let (tail, left) = Parses-unique ps qs r l m t u' in (cc (same, tail), left)

Parses-none : (ps : List Packet) (a l : List ℕ) → Parses a ps l → frame l ≡ none
Parses-none [] a l (h, e) = rw (sym e) h
Parses-none (p ∷ ps) a l (r, (h, t)) = Parses-none ps r l t

drain_packets-Parses :
    (n : ℕ) (p : FrameParser)
    → IsParser p
    → length (pending p) < n
    → Parses (pending p) (drain_packets n p).0 (pending (drain_packets n p).1)
      × IsParser (drain_packets n p).1
unfolding drain_packets add_packet
drain_packets-Parses zero p w h = absurd (omega arith)
drain_packets-Parses (suc n) p w h = elim (Option-cases (frame (pending p))) [
  | inl e ↦ rw (next_packet-none p e) ((e, refl), w)
  | inr ((pk, rest), e) ↦
      let (q, (eq, (left, v))) = next_packet-some p pk rest w e in
      let shorter = frame-shorter (pending p) pk rest e in
      let (t, u) = drain_packets-Parses n q v (omega (arith, shorter, ap length left)) in
      rw eq ((pending q, (e ∙ ap (λ r. some (pk, r)) (sym left), t)), u)
]

receive-Parses :
    (cs : List (List ℕ)) (p : FrameParser)
    → IsParser p
    → frame (pending p) ≡ none
    → Parses (pending p ++ concat cs) (receive cs p).0 (pending (receive cs p).1)
unfolding receive
receive-Parses [] p w h = rw (append-nil (pending p)) (h, refl)
receive-Parses (c ∷ cs) p w h =
    let pushed = push_bytes c p in
    let n = suc (length pushed.buf) in
    let after = (drain_packets n pushed).1 in
    let few : length (pending pushed) < n = omega (arith, length-drop pushed.consumed pushed.buf) in
    let (t, u) = drain_packets-Parses n pushed (push_bytes-IsParser c p w) few in
    let none_left = Parses-none (drain_packets n pushed).0 (pending pushed) (pending after) t in
    rw (sym (append_assoc (pending p) c (concat cs)), sym (pending-push_bytes c p w))
      (Parses-append (drain_packets n pushed).0 (receive cs after).0 (pending pushed) (concat cs)
        (pending after) (pending (receive cs after).1) t (receive-Parses cs after u none_left))

frame_lem :
    (bytes : List ℕ) (pk : Packet) (rest : List ℕ)
    → get_be16 bytes ≡ length pk.payload + 1
    → char_at 2 bytes ≡ pk.type
    → drop 3 bytes ≡ pk.payload ++ rest
    → length bytes ≡ 3 + length (pk.payload ++ rest)
    → frame bytes ≡ some (pk, rest)
frame_lem bytes pk rest len type body size =
    let behind : drop (length pk.payload) (drop 3 bytes) ≡ rest =
      rw body (drop-append pk.payload rest (length pk.payload) refl) in
    let all : drop (2 + get_be16 bytes) bytes ≡ rest =
      let e : 2 + get_be16 bytes ≡ 3 + length pk.payload = omega (arith, len) in
      rw (e, sym (drop-drop (length pk.payload) 3 bytes)) behind in
    ground (
      arith,
      all,
      length-append pk.payload rest,
      take-append pk.payload rest (length pk.payload) refl,
    )

-- What `append_packet` writes is one packet, whatever follows it.
frame-append_packet :
    (pk : Packet) (rest : List ℕ)
    → length pk.payload + 1 < 2 ^ 16
    → frame (append_packet [] pk.type pk.payload ++ rest) ≡ some (pk, rest)
unfolding append_packet put_be16 char_at
frame-append_packet pk rest h =
    let len = length pk.payload + 1 in
    frame_lem (append_packet [] pk.type pk.payload ++ rest) pk rest
      (get_be16-put_be16 (len % 2 ^ 16) (pk.type ∷ pk.payload ++ rest) (omega arith) ∙ omega arith)
      refl refl (omega arith)

-- The two-byte length holds the packet's.
abbrev pub IsPacket : Packet → Type 0
IsPacket pk = length pk.payload + 1 < 2 ^ 16

stream : List Packet → List ℕ
stream [] = []
stream (pk ∷ ps) = append_packet [] pk.type pk.payload ++ stream ps

write_packets-out : (ps : List Packet) (out : List ℕ) → write_packets ps out ≡ out ++ stream ps
unfolding write_packets stream append_packet
write_packets-out [] out = sym (append-nil out)
write_packets-out (pk ∷ ps) out =
    write_packets-out ps (append_packet out pk.type pk.payload)
    ∙ append_assoc out (append_packet [] pk.type pk.payload) (stream ps)

stream-Parses : (ps : List Packet) → All IsPacket ps → Parses (stream ps) ps []
unfolding stream
stream-Parses [] v = (refl, refl)
stream-Parses (pk ∷ ps) v =
    (stream ps, (frame-append_packet pk (stream ps) v.0, stream-Parses ps v.1))

-- However the bytes of a stream of packets are cut into chunks, pushing the chunks one by one and
-- draining the parser after each gives exactly the packets, in their order, and leaves no byte
-- pending.
pub receive-write_packets :
    (ps : List Packet) (cs : List (List ℕ))
    → All IsPacket ps
    → concat cs ≡ write_packets ps []
    → ((receive cs new_parser).0 ≡ ps) × (pending (receive cs new_parser).1 ≡ [])
receive-write_packets ps cs v e =
    Parses-unique (receive cs new_parser).0 ps (stream ps) (pending (receive cs new_parser).1) []
      (rw (sym (write_packets-out ps []), sym e)
        (receive-Parses cs new_parser new_parser-IsParser refl))
      (stream-Parses ps v)
