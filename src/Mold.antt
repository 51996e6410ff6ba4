-- ===== src/Mold.antt =====
-- src/mold/mold.{hpp,cpp}: the MoldUDP64 packetizer, the parser of a packet and the gap detector. A
-- packet is a list of bytes; `parse` keeps the bytes that are not read yet, so `at + 2 > n` is a test
-- of their number.
pub mod Format
pub mod Packing
pub mod Delivery
pub mod Gaps
use nasdaq_matching_engine.Common.{
  ℕ, zero, suc, ◌+◌, ◌*◌, ◌^◌, ◌%◌, Bool, true, false, not, ◌&&◌, ◌||◌, List, [], ◌∷◌, ◌++◌, Option,
  none, some, ltb, ◌==◌, if◌then◌else◌, length, take, drop,
}
use nasdaq_matching_engine.Common.Words.{add64}
use nasdaq_matching_engine.Types.{fill_field}
use nasdaq_matching_engine.Endian.{put_be16, get_be16, put_be64, get_be64}

abbrev pub header_size : ℕ
header_size = 20

abbrev pub end_of_session_count : ℕ
end_of_session_count = 0xFFFF

-- A session is an array of 10 chars.
unfoldable pub make_session : List ℕ → List ℕ
make_session sv = fill_field 10 sv

unfoldable pub make_header : List ℕ → ℕ → ℕ → List ℕ
make_header session seq count = session ++ put_be64 seq ++ put_be16 count

pub record Packetizer : Type 0 where
  pub session : List ℕ
  pub mtu : ℕ
  pub next_seq : ℕ
  pub current : List ℕ
  pub current_count : ℕ
  pub ready : List (List ℕ)

unfoldable pub start : List ℕ → ℕ → Packetizer
start session mtu = record {
  session = session;
  mtu = mtu;
  next_seq = 1;
  current = [];
  current_count = 0;
  ready = [];
}

abbrev pub is_nil : List ℕ → Bool
is_nil bytes = elim bytes [ [] ↦ true | b ∷ bs ↦ false ]

unfoldable pub begin_packet : Packetizer → Packetizer
begin_packet p = record p { current = make_header p.session p.next_seq 0; current_count = 0 }

-- Writes the count over the bytes 18 and 19.
unfoldable pub put_count : ℕ → List ℕ → List ℕ
put_count count packet = take 18 packet ++ put_be16 count ++ drop 20 packet

unfoldable pub flush : Packetizer → Packetizer
flush p = if is_nil p.current then p else record p {
  ready = p.ready ++ put_count p.current_count p.current ∷ [];
  current = [];
  current_count = 0;
}

-- The message is appended behind its length, which is cut to 16 bits, as the count is.
unfoldable pub append_block : List ℕ → Packetizer → Packetizer
append_block msg p = record p {
  current = p.current ++ put_be16 (length msg % 2 ^ 16) ++ msg;
  current_count = (p.current_count + 1) % 2 ^ 16;
  next_seq = add64 p.next_seq 1;
}

-- `flush` where the block does not fit, and `begin_packet` where there is no packet.
unfoldable pub make_room : ℕ → Packetizer → Packetizer
make_room block p =
    let p' =
      if not (is_nil p.current) && ltb p.mtu (length p.current + block) then flush p else p in
    if is_nil p'.current then begin_packet p' else p'

unfoldable pub add_message : List ℕ → Packetizer → Packetizer
add_message msg p = append_block msg (make_room (2 + length msg) p)

unfoldable pub take_packets : Packetizer → List (List ℕ) × Packetizer
take_packets p = (p.ready, record p { ready = [] })

pub heartbeat : Packetizer → List ℕ
heartbeat p = make_header p.session p.next_seq 0

pub end_of_session : Packetizer → List ℕ
end_of_session p = make_header p.session p.next_seq end_of_session_count

pub record DownstreamPacket : Type 0 where
  pub session : List ℕ
  pub seq : ℕ
  pub end_of_session : Bool
  pub messages : List (List ℕ)

abbrev pub cons_block : List ℕ → Option (List (List ℕ) × List ℕ) → Option (List (List ℕ) × List ℕ)
cons_block msg none = none
cons_block msg (some (msgs, left)) = some (msg ∷ msgs, left)

-- The loop over the blocks, with the bytes that are left.
unfoldable pub parse_blocks : ℕ → List ℕ → Option (List (List ℕ) × List ℕ)
parse_blocks zero bytes = some ([], bytes)
parse_blocks (suc count) bytes =
    let len = get_be16 bytes in
    let body = drop 2 bytes in
    let rest = parse_blocks count (drop len body) in
    if ltb (length bytes) 2
    then none
    else if ltb (length body) len
    then none
    else cons_block (take len body) rest

-- `at != n` is trailing garbage.
abbrev pub whole_packet :
    List ℕ → ℕ → Bool → Option (List (List ℕ) × List ℕ) → Option DownstreamPacket
whole_packet session seq eos none = none
whole_packet session seq eos (some (msgs, left)) =
    if is_nil left
    then some (record { session = session; seq = seq; end_of_session = eos; messages = msgs })
    else none

unfoldable pub parse : List ℕ → Option DownstreamPacket
parse p =
    let seq = get_be64 (drop 10 p) in
    let count = get_be16 (drop 18 p) in
    let eos = count == end_of_session_count in
    let blocks =
      if eos then some ([], drop header_size p) else parse_blocks count (drop header_size p) in
    if ltb (length p) header_size then none else whole_packet (take 10 p) seq eos blocks

pub record GapDetector : Type 0 where
  pub expected : ℕ
  pub had_gap : Bool

abbrev pub new_detector : GapDetector
new_detector = record { expected = 1; had_gap = false }

unfoldable pub on_packet : ℕ → ℕ → GapDetector → Bool × GapDetector
on_packet seq message_count d =
    let gap = ltb d.expected seq in
    let had = if gap then true else d.had_gap in
    let after = add64 seq message_count in
    let e1 = if ltb 0 message_count && ltb d.expected after then after else d.expected in
    let e2 = if gap && message_count == 0 && ltb e1 seq then seq else e1 in
    (gap, record { expected = e2; had_gap = had })
