-- ===== src/Soup/Session/Ending.antt =====
-- The loop of `on_bytes` in src/soup/soup.cpp ends.
use nasdaq_matching_engine.Common.{
  ℕ, zero, suc, ◌<◌, ◌≡◌, refl, sym, ap, ◌∙◌, Option, none, some, arith, ◌==◌, Bool-cases,
  Option-cases, inl, inr, length, List,
}
use nasdaq_matching_engine.Soup.Frames.{Packet, FrameParser, next_packet}
use nasdaq_matching_engine.Soup.Frames.Parsing.{
  pending, IsParser, frame, next_packet-none, next_packet-some, frame-shorter,
}
use nasdaq_matching_engine.Soup.Login.{LoginRequest, decode_login_request}
use nasdaq_matching_engine.Soup.Session.{
  State, awaiting_login, logged_in, closed, ServerSession, queue, set_state, set_parser,
  reject_login, Listener, login_packet, handle_packet, go_on, after_next, packet_loop,
}

module _ {ℓ} {A : Type ℓ} (listener : Listener A) where
  -- The listener has no access to the parser.
  pub record KeepsParser : Type ℓ where
    pub login :
        (req : LoginRequest) (s : ServerSession × A)
        → (listener.on_login_request req s).0.parser ≡ s.0.parser
    pub unsequenced :
        (payload : List ℕ) (s : ServerSession × A)
        → (listener.on_unsequenced payload s).0.parser ≡ s.0.parser
    pub logout : (s : ServerSession × A) → (listener.on_logout s).0.parser ≡ s.0.parser

  module _ (w : KeepsParser) where
    login_packet-parser :
        (o : Option LoginRequest) (s : ServerSession × A)
        → (login_packet listener o s).1.0.parser ≡ s.0.parser
    unfolding login_packet reject_login set_state queue
    login_packet-parser none (s, a) = refl
    login_packet-parser (some req) s = w.login req s

    handle_packet-parser :
        (st : State) (pkt : Packet) (s : ServerSession × A)
        → (handle_packet listener st pkt s).1.0.parser ≡ s.0.parser
    unfolding handle_packet set_state
    handle_packet-parser awaiting_login pkt s = elim (Bool-cases (pkt.type == b'L')) [
      | inl e ↦ rw e (login_packet-parser (decode_login_request pkt.payload) s)
      | inr e ↦ rw e refl
    ]
    handle_packet-parser logged_in pkt (s, a) = elim (Bool-cases (pkt.type == b'U')) [
      | inl e ↦ rw e (w.unsequenced pkt.payload (s, a))
      | inr e ↦ elim (Bool-cases (pkt.type == b'O')) [
        | inl f ↦ rw (e, f) (w.logout (set_state closed s, a))
        | inr f ↦ rw (e, f) refl
      ]
    ]
    handle_packet-parser closed pkt s = refl

    -- One round, where no packet is whole and where one is.
    packet_loop-none :
        (n : ℕ) (s : ServerSession) (a : A)
        → frame (pending s.parser) ≡ none
        → packet_loop listener (suc n) (s, a) ≡ (set_parser s.parser s, a)
    unfolding packet_loop after_next go_on
    packet_loop-none n s a h = rw (next_packet-none s.parser h) refl

    packet_loop-some :
        (n : ℕ) (s : ServerSession) (a : A) (pk : Packet) (q : FrameParser)
        → next_packet s.parser ≡ (some pk, q)
        → packet_loop listener (suc n) (s, a)
          ≡ go_on listener
              (handle_packet listener s.state pk (set_parser q s, a)).0
              (handle_packet listener s.state pk (set_parser q s, a)).1
              (packet_loop listener n (handle_packet listener s.state pk (set_parser q s, a)).1)
    unfolding packet_loop after_next set_parser
    packet_loop-some n s a pk q h = rw h refl

    -- The loop of `on_bytes` ends: a round more than there are pending bytes is enough, and any more
    -- rounds change nothing. The listener does not touch the parser, whose offset lies in its buffer.
    pub packet_loop-ends :
        (n m : ℕ) (s : ServerSession × A)
        → IsParser s.0.parser
        → length (pending s.0.parser) < n
        → length (pending s.0.parser) < m
        → packet_loop listener n s ≡ packet_loop listener m s
    unfolding set_parser
    packet_loop-ends zero m s p h k = absurd (omega (arith, h))
    packet_loop-ends (suc n) zero s p h k = absurd (omega (arith, k))
    packet_loop-ends (suc n) (suc m) (s, a) p h k = elim (Option-cases (frame (pending s.parser))) [
      | inl e ↦ packet_loop-none n s a e ∙ sym (packet_loop-none m s a e)
      | inr ((pk, rest), e) ↦
          let (q, (found, (left, valid))) = next_packet-some s.parser pk rest p e in
          let t = handle_packet listener s.state pk (set_parser q s, a) in
          let same : t.1.0.parser ≡ q = handle_packet-parser s.state pk (set_parser q s, a) in
          let less = frame-shorter (pending s.parser) pk rest e in
          let size : length (pending t.1.0.parser) ≡ length rest =
            ap (λ x. length (pending x)) same ∙ ap length left in
          packet_loop-some n s a pk q found
          ∙ ap (λ x. go_on listener t.0 t.1 x)
              (packet_loop-ends n m t.1 (rw same valid) (omega (arith, size, less, h))
                (omega (arith, size, less, k)))
          ∙ sym (packet_loop-some m s a pk q found)
    ]
