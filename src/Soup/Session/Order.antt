-- ===== src/Soup/Session/Order.antt =====
-- The order in which a session of src/soup/soup.cpp goes through its states.
use nasdaq_matching_engine.Common.{
  ℕ, zero, suc, ◌≤◌, ◌≡◌, refl, List, [], ◌∷◌, Option, none, some, Bool, true, false, arith, ◌==◌,
  Bool-cases, inl, inr, ◌&&◌, leb, length,
}
use nasdaq_matching_engine.Common.Words.{sub64}
use nasdaq_matching_engine.Soup.Frames.{Packet, next_packet, push_bytes}
use nasdaq_matching_engine.Soup.Session.{
  State, awaiting_login, logged_in, closed, ServerSession, is_closed, is_logged_in, queue,
  set_state, set_parser, Listener, handle_packet, go_on, after_next, packet_loop, on_bytes, tick,
  session_timeout_ns, heartbeat_interval_ns,
}

abbrev pub rank : State → ℕ
rank awaiting_login = 0
rank logged_in = 1
rank closed = 2

rank_le : (st : State) → rank st ≤ 2
rank_le awaiting_login = omega arith
rank_le logged_in = omega arith
rank_le closed = omega arith

-- A call on the session from outside.
pub data Call : Type 0 where
  received : List ℕ → ℕ → Call
  ticked : ℕ → Call

module _ {ℓ} {A : Type ℓ} (listener : Listener A) where
  -- Outside the login, the listener does not take the session back to an earlier state.
  pub record IsOrderly : Type ℓ where
    pub unsequenced :
        (payload : List ℕ) (s : ServerSession × A)
        → rank s.0.state ≤ rank (listener.on_unsequenced payload s).0.state
    pub logout : (s : ServerSession × A) → rank s.0.state ≤ rank (listener.on_logout s).0.state
    pub timeout : (s : ServerSession × A) → rank s.0.state ≤ rank (listener.on_timeout s).0.state

  pub serve : List Call → ServerSession × A → ServerSession × A
  serve [] s = s
  serve (received bytes now ∷ cs) s = serve cs (on_bytes listener bytes now s)
  serve (ticked now ∷ cs) s = serve cs (tick listener now s)

  module _ (w : IsOrderly) where
    handle_packet-rank :
        (st : State) (pkt : Packet) (s : ServerSession × A)
        → s.0.state ≡ st
        → rank s.0.state ≤ rank (handle_packet listener st pkt s).1.0.state
    unfolding handle_packet set_state
    handle_packet-rank awaiting_login pkt s h = rw h (omega arith)
    handle_packet-rank logged_in pkt (s, a) h =
        let u = w.unsequenced pkt.payload (s, a) in
        let o = w.logout (set_state closed s, a) in
        elim (Bool-cases (pkt.type == b'U')) [
          | inl e ↦ rw e u
          | inr e ↦ elim (Bool-cases (pkt.type == b'O')) [
            | inl f ↦ rw (e, f, h) (omega (arith, o))
            | inr f ↦ rw (e, f) (omega arith)
          ]
        ]
    handle_packet-rank closed pkt s h = omega arith

    after_next-rank :
        (o : Option Packet) (s : ServerSession × A)
        → rank s.0.state ≤ rank (after_next listener o s).1.0.state
    unfolding after_next
    after_next-rank none s = omega arith
    after_next-rank (some pkt) s = handle_packet-rank s.0.state pkt s refl

    go_on-rank :
        (more : Bool) (s t : ServerSession × A)
        → rank s.0.state ≤ rank t.0.state
        → rank s.0.state ≤ rank (go_on listener more s t).0.state
    unfolding go_on
    go_on-rank false s t h = omega arith
    go_on-rank true s t h = elim (Bool-cases (is_closed s.0.state)) [
      | inl e ↦ rw e (omega arith)
      | inr e ↦ rw e h
    ]

    packet_loop-rank :
        (n : ℕ) (s : ServerSession × A) → rank s.0.state ≤ rank (packet_loop listener n s).0.state
    unfolding packet_loop set_parser
    packet_loop-rank zero s = omega arith
    packet_loop-rank (suc n) (s, a) =
        let (o, parser) = next_packet s.parser in
        let t : ServerSession × A = (set_parser parser s, a) in
        let (more, u) = after_next listener o t in
        omega (
          arith,
          after_next-rank o t,
          go_on-rank more u (packet_loop listener n u) (packet_loop-rank n u),
        )

    on_bytes-rank :
        (bytes : List ℕ) (now : ℕ) (s : ServerSession × A)
        → rank s.0.state ≤ rank (on_bytes listener bytes now s).0.state
    unfolding on_bytes
    on_bytes-rank bytes now (s, a) =
        let pushed = push_bytes bytes s.parser in
        let t : ServerSession = record {
          parser = pushed;
          state = s.state;
          out = s.out;
          last_recv_ns = now;
          last_send_ns = s.last_send_ns;
        } in
        let looped = packet_loop-rank (suc (length pushed.buf)) (t, a) in
        elim (Bool-cases (is_closed s.state)) [ inl e ↦ rw e (omega arith) | inr e ↦ rw e looped ]

    tick-rank :
        (now : ℕ) (s : ServerSession × A) → rank s.0.state ≤ rank (tick listener now s).0.state
    unfolding tick queue set_state
    tick-rank now (s, a) =
        let late = leb session_timeout_ns (sub64 now s.last_recv_ns) in
        let due = is_logged_in s.state && leb heartbeat_interval_ns (sub64 now s.last_send_ns) in
        let timed = w.timeout (set_state closed s, a) in
        let last = rank_le s.state in
        elim (Bool-cases (is_closed s.state)) [
          | inl e ↦ rw e (omega arith)
          | inr e ↦ elim (Bool-cases late) [
            | inl f ↦ rw (e, f) (omega (arith, timed, last))
            | inr f ↦ elim (Bool-cases due) [
              | inl g ↦ rw (e, f, g) (omega arith)
              | inr g ↦ rw (e, f, g) (omega arith)
            ]
          ]
        ]

    -- Whatever bytes and clock ticks a session is served, its state only moves forward, from the
    -- login it awaits to being logged in to closed, if its listener does not move it back.
    pub serve-rank :
        (cs : List Call) (s : ServerSession × A) → rank s.0.state ≤ rank (serve cs s).0.state
    unfolding serve
    serve-rank [] s = omega arith
    serve-rank (received bytes now ∷ cs) s =
        omega (arith, on_bytes-rank bytes now s, serve-rank cs (on_bytes listener bytes now s))
    serve-rank (ticked now ∷ cs) s =
        omega (arith, tick-rank now s, serve-rank cs (tick listener now s))
