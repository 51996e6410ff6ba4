-- ===== src/Mold/Packing.antt =====
-- The Packetizer of src/mold/mold.cpp: which messages its packets hold, under which sequence
-- numbers, and how long the packets are.
use mathlib.Core.List.{append_assoc, append-nil}
use native.Mathlib.Nat.{add-zero, add_assoc}
use nasdaq_matching_engine.Common.{
  ℕ, ◌+◌, ◌*◌, ◌^◌, ◌%◌, ◌≤◌, ◌<◌, ◌≡◌, refl, sym, ap, ◌∙◌, false, List, [], ◌∷◌, ◌++◌, arith,
  length, length-append, All, All-append, ◌⊎◌, inl, inr,
}
use nasdaq_matching_engine.Common.Words.{add64}
use nasdaq_matching_engine.Endian.{put_be16}
use nasdaq_matching_engine.Endian.RoundTrip.{length-put_be16}
use nasdaq_matching_engine.Mold.{
  Packetizer, make_header, start, begin_packet, flush, append_block, is_nil,
}
use nasdaq_matching_engine.Mold.Format.{
  Message, IsMessage, body, packet, length-header, put_count-header,
}

unfoldable pub total : List (List Message) → ℕ
total [] = 0
total (c ∷ cs) = length c + total cs

-- The packets of the chunks, the first one with the sequence number `seq`.
unfoldable pub packets : List ℕ → ℕ → List (List Message) → List (List ℕ)
packets session seq [] = []
packets session seq (c ∷ cs) = packet session seq c ∷ packets session (seq + length c) cs

unfoldable pub join : List (List Message) → List Message
join [] = []
join (c ∷ cs) = c ++ join cs

-- What `current` holds: a header with a count of 0 still, and the blocks.
abbrev pub open_packet : List ℕ → ℕ → List Message → List ℕ
open_packet session seq [] = []
open_packet session seq (m ∷ ms) = make_header session seq 0 ++ body (m ∷ ms)

-- A packet of these messages is within the MTU, or holds one message.
abbrev pub FitsMtu : ℕ → List Message → Type 0
FitsMtu mtu c = (20 + length (body c) ≤ mtu) ⊎ (length c ≤ 1)

-- The packetizer has sent the chunks `done` and holds the messages `cur`.
pub record Packs (session : List ℕ) (mtu : ℕ) (done : List (List Message)) (cur : List Message)
    (p : Packetizer) : Type 0 where
  pub same_session : p.session ≡ session
  pub same_mtu : p.mtu ≡ mtu
  pub numbered : p.next_seq ≡ 1 + total done + length cur
  pub built : p.current ≡ open_packet session (1 + total done) cur
  pub counted : p.current_count ≡ length cur
  pub sent : p.ready ≡ packets session 1 done
  pub small : All (FitsMtu mtu) done
  pub open_small : FitsMtu mtu cur

packets-append :
    (session : List ℕ) (seq : ℕ) (done : List (List Message)) (c : List Message)
    → packets session seq (done ++ c ∷ [])
      ≡ packets session seq done ++ packet session (seq + total done) c ∷ []
unfolding packets total
packets-append session seq [] c = rw (add-zero seq) refl
packets-append session seq (d ∷ ds) c =
    ap (◌∷◌ (packet session seq d)) (
      packets-append session (seq + length d) ds c
      ∙ rw (← add_assoc seq (length d) (total ds)) refl)

total-append :
    (done : List (List Message)) (c : List Message) → total (done ++ c ∷ []) ≡ total done + length c
unfolding total
total-append [] c = omega arith
total-append (d ∷ ds) c = omega (arith, total-append ds c)

body-append :
    (c : List Message) (m : Message) → body (c ++ m ∷ []) ≡ (body c ++ put_be16 (length m)) ++ m
unfolding body
body-append [] m = simp append-nil
body-append (d ∷ ds) m = rw (body-append ds m) (simp append_assoc)

pub length-body : (c : List Message) → 2 * length c ≤ length (body c)
unfolding body
length-body [] = omega arith
length-body (m ∷ ms) = omega (
  arith,
  length-body ms,
  length-append (put_be16 (length m)) (m ++ body ms),
  length-put_be16 (length m),
  length-append m (body ms),
)

length-body-append :
    (c : List Message) (m : Message)
    → length (body (c ++ m ∷ [])) ≡ length (body c) + (2 + length m)
length-body-append c m = omega (
  arith,
  ap length (body-append c m),
  length-append (body c ++ put_be16 (length m)) m,
  length-append (body c) (put_be16 (length m)),
  length-put_be16 (length m),
)

pub start-Packs : (session : List ℕ) (mtu : ℕ) → Packs session mtu [] [] (start session mtu)
unfolding start total packets
start-Packs session mtu = record {
  same_session = refl;
  same_mtu = refl;
  numbered = refl;
  built = refl;
  counted = refl;
  sent = refl;
  small = tt;
  open_small = inr (omega arith);
}

is_nil_of_length : (xs : List ℕ) → 0 < length xs → is_nil xs ≡ false
is_nil_of_length [] h = absurd (omega arith)
is_nil_of_length (x ∷ xs) h = refl

module _ (session : List ℕ) (mtu : ℕ) (wide : length session ≡ 10) where
  length-open_packet :
      (seq : ℕ) (m : Message) (ms : List Message)
      → length (open_packet session seq (m ∷ ms)) ≡ 20 + length (body (m ∷ ms))
  length-open_packet seq m ms = omega (
    arith,
    length-append (make_header session seq 0) (body (m ∷ ms)),
    length-header session seq 0 (body (m ∷ ms)) wide,
  )

  pub length-current :
      {done : List (List Message)} {p : Packetizer} (m : Message) (ms : List Message)
      → Packs session mtu done (m ∷ ms) p
      → length p.current ≡ 20 + length (body (m ∷ ms))
  length-current {done} m ms v =
      omega (arith, ap length v.built, length-open_packet (1 + total done) m ms)

  pub is_open :
      {done : List (List Message)} {p : Packetizer} (m : Message) (ms : List Message)
      → Packs session mtu done (m ∷ ms) p
      → is_nil p.current ≡ false
  is_open {p} m ms v = is_nil_of_length p.current (omega (arith, length-current m ms v))

  -- A packet that is closed joins the ready ones, with its count written.
  pub flush-Packs :
      (done : List (List Message)) (m : Message) (ms : List Message) (p : Packetizer)
      → Packs session mtu done (m ∷ ms) p
      → Packs session mtu (done ++ (m ∷ ms) ∷ []) [] (flush p)
  unfolding flush
  flush-Packs done m ms p v = rw (is_open m ms v) (record {
    same_session = v.same_session;
    same_mtu = v.same_mtu;
    numbered = omega (arith, v.numbered, total-append done (m ∷ ms));
    built = refl;
    counted = refl;
    sent =
        rw (v.sent, v.counted, v.built)
          (ap (λ q. packets session 1 done ++ q ∷ [])
              (put_count-header session (1 + total done) 0 (body (m ∷ ms)) wide (length (m ∷ ms)))
            ∙ sym (packets-append session 1 done (m ∷ ms)));
    small = All-append (FitsMtu mtu) done ((m ∷ ms) ∷ []) v.small (v.open_small, tt);
    open_small = inr (omega arith);
  })

  pub flush_nil-Packs :
      (done : List (List Message)) (p : Packetizer)
      → Packs session mtu done [] p
      → Packs session mtu done [] (flush p)
  unfolding flush
  flush_nil-Packs done p v = rw (ap is_nil v.built) v

  -- The header of a new packet carries the number of its first message.
  pub append_first-Packs :
      (done : List (List Message)) (msg : Message) (p : Packetizer)
      → IsMessage msg
      → total done + 2 < 2 ^ 64
      → Packs session mtu done [] p
      → Packs session mtu done (msg ∷ []) (append_block msg (begin_packet p))
  unfolding append_block begin_packet add64
  append_first-Packs done msg p h t v = record {
    same_session = v.same_session;
    same_mtu = v.same_mtu;
    numbered = omega (arith, v.numbered);
    built =
        let e : p.next_seq ≡ 1 + total done = omega (arith, v.numbered) in
        let w : length msg % 2 ^ 16 ≡ length msg = omega arith in
        rw (e, v.same_session, w, append_assoc) (unfold body in rw append-nil refl);
    counted = refl;
    sent = v.sent;
    small = v.small;
    open_small = inr (omega arith);
  }

  pub append_next-Packs :
      (done : List (List Message)) (m : Message) (ms : List Message) (msg : Message)
      (p : Packetizer)
      → IsMessage msg
      → total done + length (m ∷ ms) + 2 < 2 ^ 64
      → mtu ≤ 2 ^ 17
      → 20 + length (body (m ∷ ms)) + (2 + length msg) ≤ mtu
      → Packs session mtu done (m ∷ ms) p
      → Packs session mtu done ((m ∷ ms) ++ msg ∷ []) (append_block msg p)
  unfolding append_block add64
  append_next-Packs done m ms msg p h t big fits v = record {
    same_session = v.same_session;
    same_mtu = v.same_mtu;
    numbered = omega (arith, v.numbered, length-append (m ∷ ms) (msg ∷ []));
    built =
        let w : length msg % 2 ^ 16 ≡ length msg = omega arith in
        rw (v.built, w)
          (rw
            (append_assoc, append_assoc, ← append_assoc (body (m ∷ ms)) (put_be16 (length msg)) msg)
            (ap (◌++◌ (make_header session (1 + total done) 0)) (sym (body-append (m ∷ ms) msg))));
    counted = omega (arith, v.counted, length-append (m ∷ ms) (msg ∷ []), length-body (m ∷ ms));
    sent = v.sent;
    small = v.small;
    open_small = inl (omega (arith, length-body-append (m ∷ ms) msg));
  }
