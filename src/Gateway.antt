-- ===== src/Gateway.antt =====
-- src/gateway/gateway.cpp: what an OUCH message from a client becomes, and how a response is
-- encoded. Sockets, the poller and the connection table are not modelled; what `handle_ouch` passes
-- to `send_sequenced` or to the engine's queue is its result.
pub mod Risk
pub mod Rounds
use nasdaq_matching_engine.Common.{
  ℕ, List, [], ◌∷◌, ◌++◌, Option, none, some, Bool, not, ◌&&◌, ◌||◌, ◌==◌, ltb, if◌then◌else◌,
  length,
}
use nasdaq_matching_engine.Common.Int.{pos, lt?, eq?}
use nasdaq_matching_engine.Types.{Price}
use nasdaq_matching_engine.Endian.Layout.{char_at}
use nasdaq_matching_engine.Ouch.{market_price}
use nasdaq_matching_engine.Soup.Session.{ServerSession, Listener, accept_login, send_sequenced}
use nasdaq_matching_engine.Ouch.Inbound.{
  EnterOrder, CancelOrder, ReplaceOrder, decode_enter_order, decode_cancel_order,
  decode_replace_order,
}
use nasdaq_matching_engine.Ouch.Outbound.{
  SystemEvent, encode_system_event, Accepted, encode_accepted, Replaced, encode_replaced, Executed,
  encode_executed, Canceled, encode_canceled, Rejected, encode_rejected,
}

abbrev pub max_order_shares : ℕ
max_order_shares = 1000000

abbrev pub max_order_price : Price
max_order_price = pos 1999999900

-- The variant of the engine's commands, and a command with its client's id.
pub data Inbound : Type 0 where
  enter : EnterOrder → Inbound
  cancel : CancelOrder → Inbound
  replace : ReplaceOrder → Inbound

pub record Command : Type 0 where
  pub client_id : ℕ
  pub msg : Inbound

pub data Handled : Type 0 where
  ignored : Handled
  answered : List ℕ → Handled
  queued : Command → Handled

abbrev pub over_limits_enter : EnterOrder → Bool
over_limits_enter m =
    let market = eq? m.price market_price in
    ltb max_order_shares m.shares || (not market && lt? max_order_price m.price)

abbrev pub over_limits_replace : ReplaceOrder → Bool
over_limits_replace m = ltb max_order_shares m.shares || lt? max_order_price m.price

-- The bytes of the local `reject`, a Rejected of reason 'R'.
unfoldable pub risk_reject : ℕ → List ℕ → List ℕ
risk_reject now t = encode_rejected (record { timestamp = now; token = t; reason = b'R' })

pub handle_enter : ℕ → ℕ → Option EnterOrder → Handled
handle_enter id now none = ignored
handle_enter id now (some m) =
    if over_limits_enter m
    then answered (risk_reject now m.token)
    else queued (record { client_id = id; msg = enter m })

pub handle_cancel : ℕ → Option CancelOrder → Handled
handle_cancel id none = ignored
handle_cancel id (some m) = queued (record { client_id = id; msg = cancel m })

pub handle_replace : ℕ → ℕ → Option ReplaceOrder → Handled
handle_replace id now none = ignored
handle_replace id now (some m) =
    if over_limits_replace m
    then answered (risk_reject now m.replacement_token)
    else queued (record { client_id = id; msg = replace m })

unfoldable pub handle_ouch : ℕ → ℕ → List ℕ → Handled
handle_ouch id now data_ =
    if length data_ == 0
    then ignored
    else if char_at 0 data_ == b'O'
    then handle_enter id now (decode_enter_order data_)
    else if char_at 0 data_ == b'X'
    then handle_cancel id (decode_cancel_order data_)
    else if char_at 0 data_ == b'U'
    then handle_replace id now (decode_replace_order data_)
    else ignored

-- What a connection does with a message: the answer goes into its session, a command behind those
-- queued for the engine.
pub act_on : Handled → ServerSession × List Command → ServerSession × List Command
act_on ignored s = s
act_on (answered bytes) (s, queue) = (send_sequenced bytes s, queue)
act_on (queued c) (s, queue) = (s, queue ++ (c ∷ []))

-- The listener of a connection, at the time `now`. All logins are accepted, as session SIM01.
unfoldable pub conn_listener : ℕ → ℕ → Listener (List Command)
conn_listener id now = record {
  on_login_request =
      λ req (s, queue). (accept_login (b'S' ∷ b'I' ∷ b'M' ∷ b'0' ∷ b'1' ∷ []) 1 s, queue);
  on_unsequenced = λ bytes s. act_on (handle_ouch id now bytes) s;
  on_logout = λ s. s;
  on_timeout = λ s. s;
}

-- The variant of the engine's responses and `encode_ouch`.
pub data Outbound : Type 0 where
  system_event : SystemEvent → Outbound
  accepted : Accepted → Outbound
  replaced : Replaced → Outbound
  executed : Executed → Outbound
  canceled : Canceled → Outbound
  rejected : Rejected → Outbound

unfoldable pub encode_ouch : Outbound → List ℕ
encode_ouch (system_event m) = encode_system_event m
encode_ouch (accepted m) = encode_accepted m
encode_ouch (replaced m) = encode_replaced m
encode_ouch (executed m) = encode_executed m
encode_ouch (canceled m) = encode_canceled m
encode_ouch (rejected m) = encode_rejected m
