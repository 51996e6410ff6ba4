-- ===== src/Mold/Delivery.antt =====
-- The whole way through src/mold/mold.cpp: messages are added, the packets taken and parsed.
use mathlib.Core.List.{append_assoc, append-nil}
use mathlib.Core.Path.{ap₂}
use nasdaq_matching_engine.Common.{
  ℕ, ◌+◌, ◌^◌, ◌≤◌, ◌<◌, ◌≡◌, refl, sym, ap, ◌∙◌, true, false, List, [], ◌∷◌, ◌++◌, map, arith, ltb,
  length, length-append, All, inl, inr, Bool-cases, some,
}
use nasdaq_matching_engine.Mold.{
  Packetizer, DownstreamPacket, start, flush, make_room, add_message, is_nil, parse,
}
use nasdaq_matching_engine.Mold.Format.{Message, IsMessage, parse-packet}
use nasdaq_matching_engine.Mold.Packing.{
  total, packets, join, FitsMtu, Packs, length-body, start-Packs, flush-Packs, flush_nil-Packs,
  append_first-Packs, append_next-Packs, length-current, is_open,
}

unfoldable pub add_all : List Message → Packetizer → Packetizer
add_all [] p = p
add_all (m ∷ ms) p = add_all ms (add_message m p)

-- What a receiver reads from the packets of the chunks.
unfoldable pub datagrams : List ℕ → ℕ → List (List Message) → List DownstreamPacket
datagrams session seq [] = []
datagrams session seq (c ∷ cs) =
    record { session = session; seq = seq; end_of_session = false; messages = c }
    ∷ datagrams session (seq + length c) cs

join-append : (xs ys : List (List Message)) → join (xs ++ ys) ≡ join xs ++ join ys
unfolding join
join-append [] ys = refl
join-append (x ∷ xs) ys = rw (join-append xs ys) (sym (append_assoc x (join xs) (join ys)))

total-join : (done : List (List Message)) → total done ≡ length (join done)
unfolding total join
total-join [] = refl
total-join (c ∷ cs) = omega (arith, total-join cs, length-append c (join cs))

module _ (session : List ℕ) (mtu : ℕ) (wide : length session ≡ 10) (big : mtu ≤ 2 ^ 17) where
  -- The packetizer holds these messages, in packets that are ready or in the open one.
  abbrev Holds : List Message → Packetizer → Type 0
  Holds msgs p =
      (done : List (List Message)) × (cur : List Message) × Packs session mtu done cur p
      × (join done ++ cur ≡ msgs)

  add_to_nothing :
      (done : List (List Message)) (msg : Message) (p : Packetizer)
      → IsMessage msg
      → total done + 2 < 2 ^ 64
      → Packs session mtu done [] p
      → Packs session mtu done (msg ∷ []) (add_message msg p)
  unfolding add_message make_room
  add_to_nothing done msg p h t v =
      rw (ap is_nil v.built, ap is_nil v.built)
        (append_first-Packs session mtu wide done msg p h t v)

  add_to_open :
      (done : List (List Message)) (m : Message) (ms : List Message) (msg : Message)
      (p : Packetizer)
      → IsMessage msg
      → total done + length (m ∷ ms) + 2 < 2 ^ 64
      → Packs session mtu done (m ∷ ms) p
      → Holds ((join done ++ m ∷ ms) ++ msg ∷ []) (add_message msg p)
  add_to_open done m ms msg p h t v =
      elim (Bool-cases (ltb p.mtu (length p.current + (2 + length msg)))) [
        | inl e ↦ (
          done ++ (m ∷ ms) ∷ [],
          msg ∷ [],
          full e,
          ap (λ l. l ++ msg ∷ [])
              (join-append done ((m ∷ ms) ∷ [])
                ∙ unfold join in ap (◌++◌ (join done)) (append-nil (m ∷ ms))),
        )
        | inr e ↦
            (done, (m ∷ ms) ++ msg ∷ [], room e, sym (append_assoc (join done) (m ∷ ms) (msg ∷ [])))
      ]
    where
      flushed : Packs session mtu (done ++ (m ∷ ms) ∷ []) [] (flush p)
      flushed = flush-Packs session mtu wide done m ms p v

      full :
          ltb p.mtu (length p.current + (2 + length msg)) ≡ true
          → Packs session mtu (done ++ (m ∷ ms) ∷ []) (msg ∷ []) (add_message msg p)
      full e =
          unfold add_message make_room in
          rw (is_open session mtu wide m ms v, e, ap is_nil flushed.built)
            (append_first-Packs session mtu wide _ msg (flush p) h
              (omega (
                arith,
                total-join done,
                total-join (done ++ (m ∷ ms) ∷ []),
                ap length (join-append done ((m ∷ ms) ∷ [])),
                length-append (join done) (join ((m ∷ ms) ∷ [])),
                joined (m ∷ ms),
              ))
              flushed)
        where
          joined : (c : List Message) → length (join (c ∷ [])) ≡ length c
          joined c = unfold join in ap length (append-nil c)

      room :
          ltb p.mtu (length p.current + (2 + length msg)) ≡ false
          → Packs session mtu done ((m ∷ ms) ++ msg ∷ []) (add_message msg p)
      room e =
          unfold add_message make_room in
          rw (is_open session mtu wide m ms v, e, is_open session mtu wide m ms v)
            (append_next-Packs session mtu wide done m ms msg p h t big
              (ground (arith, length-current session mtu wide m ms v, v.same_mtu)) v)

  add_message-Holds :
      (msgs : List Message) (msg : Message) (p : Packetizer)
      → IsMessage msg
      → length msgs + 2 < 2 ^ 64
      → Holds msgs p
      → Holds (msgs ++ msg ∷ []) (add_message msg p)
  add_message-Holds msgs msg p h t (done, [], v, e) = (
    done,
    msg ∷ [],
    add_to_nothing done msg p h
        (omega (arith, total-join done, ap length e, length-append (join done) [])) v,
    ap (λ l. l ++ msg ∷ []) (sym (append-nil (join done)) ∙ e),
  )
  add_message-Holds msgs msg p h t (done, m ∷ ms, v, e) = rw (← e) (
      add_to_open done m ms msg p h
        (omega (arith, total-join done, ap length e, length-append (join done) (m ∷ ms))) v)

  add_all-Holds :
      (ms msgs : List Message) (p : Packetizer)
      → All IsMessage ms
      → length msgs + length ms + 2 < 2 ^ 64
      → Holds msgs p
      → Holds (msgs ++ ms) (add_all ms p)
  unfolding add_all
  add_all-Holds [] msgs p h t held = rw (append-nil msgs) held
  add_all-Holds (m ∷ ms) msgs p (h, hs) t held = rw (append_assoc msgs (m ∷ []) ms) at (
      add_all-Holds ms (msgs ++ m ∷ []) (add_message m p) hs
        (omega (arith, length-append msgs (m ∷ [])))
        (add_message-Holds msgs m p h (omega arith) held))

  flush-Holds :
      (msgs : List Message) (p : Packetizer)
      → Holds msgs p
      → (done : List (List Message)) × Packs session mtu done [] (flush p) × (join done ≡ msgs)
  flush-Holds msgs p (done, [], v, e) =
      (done, flush_nil-Packs session mtu wide done p v, sym (append-nil (join done)) ∙ e)
  flush-Holds msgs p (done, m ∷ ms, v, e) = (
    done ++ (m ∷ ms) ∷ [],
    flush-Packs session mtu wide done m ms p v,
    join-append done ((m ∷ ms) ∷ [])
        ∙ unfold join in ap (◌++◌ (join done)) (append-nil (m ∷ ms)) ∙ e,
  )

  small_count : (c : List Message) → FitsMtu mtu c → length c < 65535
  small_count c (inl h) = omega (arith, length-body c)
  small_count c (inr h) = omega arith

  All-IsMessage-left : (xs ys : List Message) → All IsMessage (xs ++ ys) → All IsMessage xs
  All-IsMessage-left [] ys h = tt
  All-IsMessage-left (x ∷ xs) ys (h, hs) = (h, All-IsMessage-left xs ys hs)

  All-IsMessage-right : (xs ys : List Message) → All IsMessage (xs ++ ys) → All IsMessage ys
  All-IsMessage-right [] ys h = h
  All-IsMessage-right (x ∷ xs) ys (h, hs) = All-IsMessage-right xs ys hs

  parse-packets :
      (seq : ℕ) (done : List (List Message))
      → seq + total done < 2 ^ 64
      → All (FitsMtu mtu) done
      → All IsMessage (join done)
      → map parse (packets session seq done) ≡ map some (datagrams session seq done)
  unfolding packets datagrams total join
  parse-packets seq [] t f h = refl
  parse-packets seq (c ∷ cs) t (f, fs) h =
      ap₂ ◌∷◌
        (parse-packet session seq c wide (omega arith) (small_count c f)
          (All-IsMessage-left c (join cs) h))
        (parse-packets (seq + length c) cs (omega arith) fs (All-IsMessage-right c (join cs) h))

  -- Any messages that are added to a new packetizer and flushed come out of `parse`, all of them and
  -- in order, as datagrams whose sequence numbers count the messages from 1; each packet is within the
  -- MTU or holds one message. The session has 10 chars, the MTU is at most 2 ^ 17, a message is
  -- shorter than 2 ^ 16 bytes, and there are fewer than 2 ^ 64 - 2 of them.
  pub packetizer_delivers :
      (msgs : List Message)
      → All IsMessage msgs
      → length msgs + 2 < 2 ^ 64
      → (chunks : List (List Message)) × (map parse (flush (add_all msgs (start session mtu))).ready
          ≡ map some (datagrams session 1 chunks))
        × (join chunks ≡ msgs)
        × All (FitsMtu mtu) chunks
  packetizer_delivers msgs h t =
      let (done, v, e) = flush-Holds msgs (add_all msgs (start session mtu)) (
        add_all-Holds msgs [] (start session mtu) h (omega arith)
          ([], [], start-Packs session mtu, unfold join in refl)) in
      (
        done,
        rw v.sent
            (parse-packets 1 done (omega (arith, total-join done, ap length e)) v.small (rw e h)),
        e,
        v.small,
      )
