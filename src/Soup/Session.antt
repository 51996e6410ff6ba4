-- ===== src/Soup/Session.antt =====
-- The server's side of a session in src/soup/soup.cpp. The listener is a record of functions that
-- take its call's argument, the session, which it may call back, and a state of its own.
pub mod Order
pub mod Ending
use nasdaq_matching_engine.Common.{
  ℕ, zero, suc, ◌+◌, ◌-◌, ◌%◌, List, [], ◌∷◌, ◌++◌, Option, none, some, Bool, true, false, leb, ltb,
  ◌==◌, ◌&&◌, if◌then◌else◌, length,
}
use nasdaq_matching_engine.Common.Words.{sub64}
use nasdaq_matching_engine.Soup.Frames.{
  Packet, FrameParser, new_parser, push_bytes, next_packet, append_packet,
}
use nasdaq_matching_engine.Soup.Login.{LoginRequest, decode_login_request, append_alpha, append_seq}

abbrev pub heartbeat_interval_ns : ℕ
heartbeat_interval_ns = 1000000000

abbrev pub session_timeout_ns : ℕ
session_timeout_ns = 15000000000

pub data State : Type 0 where
  awaiting_login logged_in closed : State

pub record ServerSession : Type 0 where
  pub parser : FrameParser
  pub state : State
  pub out : List ℕ
  pub last_recv_ns : ℕ
  pub last_send_ns : ℕ

unfoldable pub new_session : ℕ → ServerSession
new_session now_ns = record {
  parser = new_parser;
  state = awaiting_login;
  out = [];
  last_recv_ns = now_ns;
  last_send_ns = now_ns;
}

abbrev pub is_closed : State → Bool
is_closed closed = true
is_closed logged_in = false
is_closed awaiting_login = false

abbrev pub is_logged_in : State → Bool
is_logged_in closed = false
is_logged_in logged_in = true
is_logged_in awaiting_login = false

unfoldable pub queue : ℕ → List ℕ → ServerSession → ServerSession
queue type payload s = record {
  parser = s.parser;
  state = s.state;
  out = append_packet s.out type payload;
  last_recv_ns = s.last_recv_ns;
  last_send_ns = s.last_send_ns;
}

unfoldable pub set_state : State → ServerSession → ServerSession
set_state st s = record {
  parser = s.parser;
  state = st;
  out = s.out;
  last_recv_ns = s.last_recv_ns;
  last_send_ns = s.last_send_ns;
}

unfoldable pub set_parser : FrameParser → ServerSession → ServerSession
set_parser p s = record {
  parser = p;
  state = s.state;
  out = s.out;
  last_recv_ns = s.last_recv_ns;
  last_send_ns = s.last_send_ns;
}

unfoldable pub accept_login : List ℕ → ℕ → ServerSession → ServerSession
accept_login session next_seq s =
    set_state logged_in (queue b'A' (append_seq (append_alpha [] session 10) next_seq 20) s)

unfoldable pub reject_login : ℕ → ServerSession → ServerSession
reject_login reason s = set_state closed (queue b'J' (reason ∷ []) s)

unfoldable pub send_sequenced : List ℕ → ServerSession → ServerSession
send_sequenced payload s = queue b'S' payload s

unfoldable pub send_end_of_session : ServerSession → ServerSession
send_end_of_session s = queue b'Z' [] s

unfoldable pub take_output : ServerSession → List ℕ × ServerSession
take_output s = (
  s.out,
  record {
    parser = s.parser;
    state = s.state;
    out = [];
    last_recv_ns = s.last_recv_ns;
    last_send_ns = s.last_send_ns;
  },
)

pub record Listener {ℓ} (A : Type ℓ) : Type ℓ where
  pub on_login_request : LoginRequest → ServerSession × A → ServerSession × A
  pub on_unsequenced : List ℕ → ServerSession × A → ServerSession × A
  pub on_logout : ServerSession × A → ServerSession × A
  pub on_timeout : ServerSession × A → ServerSession × A

module _ {ℓ} {A : Type ℓ} (listener : Listener A) where
  -- A packet before the login, with whether the loop of `on_bytes` goes on behind it.
  pub login_packet : Option LoginRequest → ServerSession × A → Bool × (ServerSession × A)
  login_packet (some req) s = (true, listener.on_login_request req s)
  login_packet none (s, a) = (false, (reject_login b'A' s, a))

  pub handle_packet : State → Packet → ServerSession × A → Bool × (ServerSession × A)
  handle_packet awaiting_login pkt s =
      if pkt.type == b'L' then login_packet (decode_login_request pkt.payload) s else (true, s)
  handle_packet logged_in pkt (s, a) =
      if pkt.type == b'U'
      then (true, listener.on_unsequenced pkt.payload (s, a))
      else if pkt.type == b'O'
      then (false, listener.on_logout (set_state closed s, a))
      else (true, (s, a))
  handle_packet closed pkt s = (true, s)

  -- The loop of `on_bytes`, for at most as many rounds as the fuel: `next` of the parser, then the
  -- packet, then the test whether the session is closed.
  pub go_on : Bool → ServerSession × A → ServerSession × A → ServerSession × A
  go_on true s rest = if is_closed s.0.state then s else rest
  go_on false s rest = s

  pub after_next : Option Packet → ServerSession × A → Bool × (ServerSession × A)
  after_next none s = (false, s)
  after_next (some pkt) s = handle_packet s.0.state pkt s

  pub packet_loop : ℕ → ServerSession × A → ServerSession × A
  packet_loop zero s = s
  packet_loop (suc n) (s, a) =
      let (pkt, parser) = next_packet s.parser in
      let (more, t) = after_next pkt (set_parser parser s, a) in go_on more t (packet_loop n t)

  unfoldable pub on_bytes : List ℕ → ℕ → ServerSession × A → ServerSession × A
  on_bytes bytes now_ns (s, a) =
      let parser = push_bytes bytes s.parser in
      let t : ServerSession = record {
        parser = parser;
        state = s.state;
        out = s.out;
        last_recv_ns = now_ns;
        last_send_ns = s.last_send_ns;
      } in
      let handled = packet_loop (suc (length parser.buf)) (t, a) in
      if is_closed s.state then (s, a) else handled

  unfoldable pub tick : ℕ → ServerSession × A → ServerSession × A
  tick now_ns (s, a) =
      let beat = queue b'H' [] s in
      if is_closed s.state
      then (s, a)
      else if leb session_timeout_ns (sub64 now_ns s.last_recv_ns)
      then listener.on_timeout (set_state closed s, a)
      else if is_logged_in s.state && leb heartbeat_interval_ns (sub64 now_ns s.last_send_ns)
      then (
        record {
          parser = beat.parser;
          state = beat.state;
          out = beat.out;
          last_recv_ns = beat.last_recv_ns;
          last_send_ns = now_ns;
        },
        a,
      )
      else (s, a)
