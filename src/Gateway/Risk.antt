-- ===== src/Gateway/Risk.antt =====
-- What the risk checks of src/gateway/gateway.cpp let through to the engine, and what they answer.
use nasdaq_matching_engine.Common.{
  ℕ, ◌≤◌, ◌⊎◌, ◌≡◌, refl, List, Option, none, some, Bool, false, if◌then◌else◌, Bool-cases, ==→eq,
  inl, inr, ◌==◌, length, arith,
}
use nasdaq_matching_engine.Common.Int.{pos, ◌≤ℤ◌, eq?, eq_of_parts}
use nasdaq_matching_engine.Endian.Layout.{char_at}
use nasdaq_matching_engine.Ouch.Inbound.{
  EnterOrder, CancelOrder, ReplaceOrder, encode_enter_order, encode_cancel_order,
  encode_replace_order, decode_enter_order, decode_cancel_order, decode_replace_order,
}
use nasdaq_matching_engine.Ouch.Inbound.RoundTrip.{
  IsEnterOrder, IsCancelOrder, IsReplaceOrder, length-encode_enter_order, type-encode_enter_order,
  decode_enter_order-encode_enter_order, length-encode_cancel_order, type-encode_cancel_order,
  decode_cancel_order-encode_cancel_order, length-encode_replace_order, type-encode_replace_order,
  decode_replace_order-encode_replace_order,
}
use nasdaq_matching_engine.Gateway.{
  Inbound, enter, cancel, replace, Command, Handled, ignored, answered, queued, over_limits_enter,
  over_limits_replace, risk_reject, handle_enter, handle_cancel, handle_replace, handle_ouch,
  act_on, conn_listener,
}
use nasdaq_matching_engine.Soup.Session.{ServerSession, queue, send_sequenced}
use nasdaq_matching_engine.Soup.Session.Order.{rank, Call, serve, IsOrderly, serve-rank}

abbrev pub encode_inbound : Inbound → List ℕ
encode_inbound (enter m) = encode_enter_order m
encode_inbound (cancel m) = encode_cancel_order m
encode_inbound (replace m) = encode_replace_order m

-- The message's fields fit on the wire.
abbrev pub IsInbound : Inbound → Type 0
IsInbound (enter m) = IsEnterOrder m
IsInbound (cancel m) = IsCancelOrder m
IsInbound (replace m) = IsReplaceOrder m

abbrev pub over_limits : Inbound → Bool
over_limits (enter m) = over_limits_enter m
over_limits (cancel m) = false
over_limits (replace m) = over_limits_replace m

-- The token that a rejection of the message names.
abbrev pub new_token : Inbound → List ℕ
new_token (enter m) = m.token
new_token (cancel m) = m.token
new_token (replace m) = m.replacement_token

-- A message that a client encodes reaches the engine as it is, with the client's id, where it is
-- within the limits, and is answered by a risk rejection of its new token where it is not.
pub handle_ouch-encode_inbound :
    (id now : ℕ) (m : Inbound)
    → IsInbound m
    → handle_ouch id now (encode_inbound m) ≡ (
        if over_limits m
        then answered (risk_reject now (new_token m))
        else queued (record { client_id = id; msg = m }))
unfolding handle_ouch handle_enter handle_cancel handle_replace
handle_ouch-encode_inbound id now (enter m) w =
    rw
      (
        length-encode_enter_order m w,
        type-encode_enter_order m w,
        decode_enter_order-encode_enter_order m w,
      )
      refl
handle_ouch-encode_inbound id now (cancel m) w =
    rw
      (
        length-encode_cancel_order m w,
        type-encode_cancel_order m w,
        decode_cancel_order-encode_cancel_order m w,
      )
      refl
handle_ouch-encode_inbound id now (replace m) w =
    rw
      (
        length-encode_replace_order m w,
        type-encode_replace_order m w,
        decode_replace_order-encode_replace_order m w,
      )
      refl

-- The limits, written out.
pub IsWithinLimits : Inbound → Type 0
IsWithinLimits (enter m) =
    (m.shares ≤ 1000000) × ((m.price ≡ pos 2147483647) ⊎ (m.price ≤ℤ pos 1999999900))
IsWithinLimits (cancel m) = Unit {0}
IsWithinLimits (replace m) = (m.shares ≤ 1000000) × (m.price ≤ℤ pos 1999999900)

-- What is queued carries the client's id and is within the limits.
pub IsSafe : ℕ → Handled → Type 0
IsSafe id ignored = Unit {0}
IsSafe id (answered bytes) = Unit {0}
IsSafe id (queued c) = (c.client_id ≡ id) × IsWithinLimits c.msg

limits_enter : (m : EnterOrder) → over_limits_enter m ≡ false → IsWithinLimits (enter m)
unfolding over_limits_enter IsWithinLimits
limits_enter m h = (
  ground arith,
  elim (Bool-cases (eq? m.price (pos 2147483647))) [
    | inl e ↦ inl (eq_of_parts m.price (pos 2147483647) (==→eq _ _ e))
    | inr n ↦ inr (ground arith)
  ],
)

limits_replace : (m : ReplaceOrder) → over_limits_replace m ≡ false → IsWithinLimits (replace m)
unfolding over_limits_replace IsWithinLimits
limits_replace m h = (ground arith, ground arith)

handle_enter-IsSafe : (id now : ℕ) (o : Option EnterOrder) → IsSafe id (handle_enter id now o)
unfolding IsSafe handle_enter
handle_enter-IsSafe id now none = tt
handle_enter-IsSafe id now (some m) = elim (Bool-cases (over_limits_enter m)) [
  | inl h ↦ rw h tt
  | inr h ↦ rw h (refl, limits_enter m h)
]

handle_cancel-IsSafe : (id : ℕ) (o : Option CancelOrder) → IsSafe id (handle_cancel id o)
unfolding IsSafe handle_cancel IsWithinLimits
handle_cancel-IsSafe id none = tt
handle_cancel-IsSafe id (some m) = (refl, tt)

handle_replace-IsSafe : (id now : ℕ) (o : Option ReplaceOrder) → IsSafe id (handle_replace id now o)
unfolding IsSafe handle_replace
handle_replace-IsSafe id now none = tt
handle_replace-IsSafe id now (some m) = elim (Bool-cases (over_limits_replace m)) [
  | inl h ↦ rw h tt
  | inr h ↦ rw h (refl, limits_replace m h)
]

-- Whatever bytes a client sends, what `handle_ouch` queues for the engine carries that client's id,
-- and is a cancel, or an order or a replacement of at most 1,000,000 shares whose price is at most
-- $199,999.99, or for an order the market price.
pub handle_ouch-IsSafe : (id now : ℕ) (bytes : List ℕ) → IsSafe id (handle_ouch id now bytes)
unfolding handle_ouch IsSafe
handle_ouch-IsSafe id now bytes =
    let e = handle_enter-IsSafe id now (decode_enter_order bytes) in
    let x = handle_cancel-IsSafe id (decode_cancel_order bytes) in
    let r = handle_replace-IsSafe id now (decode_replace_order bytes) in
    elim (Bool-cases (length bytes == 0)) [
      | inl h ↦ rw h tt
      | inr h ↦ elim (Bool-cases (char_at 0 bytes == b'O')) [
        | inl o ↦ rw (h, o) e
        | inr o ↦ elim (Bool-cases (char_at 0 bytes == b'X')) [
          | inl c ↦ rw (h, o, c) x
          | inr c ↦ elim (Bool-cases (char_at 0 bytes == b'U')) [
            | inl u ↦ rw (h, o, c, u) r
            | inr u ↦ rw (h, o, c, u) tt
          ]
        ]
      ]
    ]

act_on-rank :
    (h : Handled) (s : ServerSession × List Command) → rank s.0.state ≤ rank (act_on h s).0.state
unfolding act_on send_sequenced queue
act_on-rank ignored s = omega arith
act_on-rank (answered bytes) (s, queued_for) = omega arith
act_on-rank (queued c) (s, queued_for) = omega arith

-- A connection does not take its session back to an earlier state.
pub conn_listener-IsOrderly : (id now : ℕ) → IsOrderly (conn_listener id now)
unfolding conn_listener
conn_listener-IsOrderly id now = record {
  unsequenced = λ bytes s. act_on-rank (handle_ouch id now bytes) s;
  logout = λ s. omega arith;
  timeout = λ s. omega arith;
}

-- Whatever a client sends and whenever the clock ticks, the session of its connection moves only
-- forward, from the login it awaits to being logged in to closed.
pub serve-conn_listener :
    (id now : ℕ) (cs : List Call) (s : ServerSession × List Command)
    → rank s.0.state ≤ rank (serve (conn_listener id now) cs s).0.state
serve-conn_listener id now cs s =
    serve-rank (conn_listener id now) (conn_listener-IsOrderly id now) cs s
