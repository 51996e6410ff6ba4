-- ===== src/Client.antt =====
-- src/client/ouch_client.cpp: which response a sequenced payload is. The handler's call is the result.
pub mod Dispatching
use nasdaq_matching_engine.Common.{ℕ, List, Option, none, ◌==◌, if◌then◌else◌}
use mathlib.Core.Option
use nasdaq_matching_engine.Endian.Layout.{char_at}
use nasdaq_matching_engine.Ouch.Outbound.{
  decode_system_event, decode_accepted, decode_replaced, decode_executed, decode_canceled,
  decode_rejected,
}
use nasdaq_matching_engine.Gateway.{
  Outbound, system_event, accepted, replaced, executed, canceled, rejected,
}

unfoldable pub dispatch : List ℕ → Option Outbound
dispatch payload =
    if char_at 0 payload == b'A'
    then Option.map accepted (decode_accepted payload)
    else if char_at 0 payload == b'E'
    then Option.map executed (decode_executed payload)
    else if char_at 0 payload == b'C'
    then Option.map canceled (decode_canceled payload)
    else if char_at 0 payload == b'U'
    then Option.map replaced (decode_replaced payload)
    else if char_at 0 payload == b'J'
    then Option.map rejected (decode_rejected payload)
    else if char_at 0 payload == b'S'
    then Option.map system_event (decode_system_event payload)
    else none
