-- ===== src/Soup/Frames.antt =====
-- Packets of src/soup/soup.cpp and the parser that finds them in the bytes of a connection.
pub mod Parsing
pub mod Streams
use nasdaq_matching_engine.Common.{
  ℕ, zero, suc, ◌+◌, ◌-◌, ◌*◌, ◌%◌, ◌^◌, List, [], ◌∷◌, ◌++◌, Option, none, some, ltb, ◌&&◌, ◌||◌,
  if◌then◌else◌, length, take, drop,
}
use nasdaq_matching_engine.Endian.{put_be16, get_be16}
use nasdaq_matching_engine.Endian.Layout.{char_at}

-- The length on the wire counts the type, and keeps the low 16 bits.
unfoldable pub append_packet : List ℕ → ℕ → List ℕ → List ℕ
append_packet out type payload =
    out ++ (put_be16 ((length payload + 1) % 2 ^ 16) ++ (type ∷ payload))

pub record Packet : Type 0 where
  pub type : ℕ
  pub payload : List ℕ

pub record FrameParser : Type 0 where
  pub buf : List ℕ
  pub consumed : ℕ

abbrev pub new_parser : FrameParser
new_parser = record { buf = []; consumed = 0 }

unfoldable pub push_bytes : List ℕ → FrameParser → FrameParser
push_bytes bytes p = record { buf = p.buf ++ bytes; consumed = p.consumed }

-- The bytes consumed are erased once they are more than 4096 and more than half of the buffer.
unfoldable pub compact : FrameParser → FrameParser
compact p =
    if ltb 4096 p.consumed && ltb (length p.buf) (p.consumed * 2)
    then record { buf = drop p.consumed p.buf; consumed = 0 }
    else p

-- `buf_.size() - consumed_` never wraps, since `consumed_` is at most the size.
unfoldable pub next_packet : FrameParser → Option Packet × FrameParser
next_packet p =
    let avail = length p.buf - p.consumed in
    let at = drop p.consumed p.buf in
    let len = get_be16 at in
    if ltb avail 2 then (none, p) else if ltb len 1 || ltb avail (2 + len) then (none, p) else (
      some (record { type = char_at 2 at; payload = take (len - 1) (drop 3 at) }),
      compact (record { buf = p.buf; consumed = p.consumed + (2 + len) }),
    )

-- The loop `while (auto pkt = parser_.next())`, for at most as many rounds as the fuel, and its
-- packets.
pub add_packet : Option Packet → FrameParser → List Packet × FrameParser → List Packet × FrameParser
add_packet none p rest = ([], p)
add_packet (some pk) p (ps, last) = (pk ∷ ps, last)

pub drain_packets : ℕ → FrameParser → List Packet × FrameParser
drain_packets zero p = ([], p)
drain_packets (suc n) p =
    let (pk, next) = next_packet p in add_packet pk next (drain_packets n next)

-- Bytes as they arrive: each chunk is pushed and the loop is run. A round takes at least a byte.
pub receive : List (List ℕ) → FrameParser → List Packet × FrameParser
receive [] p = ([], p)
receive (c ∷ cs) p =
    let pushed = push_bytes c p in
    let (ps, after) = drain_packets (suc (length pushed.buf)) pushed in
    let (qs, last) = receive cs after in (ps ++ qs, last)

-- A sender's loop over `append_packet`.
unfoldable pub write_packets : List Packet → List ℕ → List ℕ
write_packets [] out = out
write_packets (pk ∷ ps) out = write_packets ps (append_packet out pk.type pk.payload)
