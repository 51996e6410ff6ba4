-- ===== src/Client/Dispatching.antt =====
-- How a client of src/client/ouch_client.cpp reads the responses that the gateway encodes.
use nasdaq_matching_engine.Common.{◌≡◌, refl, some}
use nasdaq_matching_engine.Ouch.Outbound.RoundTrip.{
  IsSystemEvent, type-encode_system_event, decode_system_event-encode_system_event, IsAccepted,
  type-encode_accepted, decode_accepted-encode_accepted, IsReplaced, type-encode_replaced,
  decode_replaced-encode_replaced, IsExecuted, type-encode_executed,
  decode_executed-encode_executed, IsCanceled, type-encode_canceled,
  decode_canceled-encode_canceled, IsRejected, type-encode_rejected,
  decode_rejected-encode_rejected,
}
use nasdaq_matching_engine.Gateway.{
  Outbound, system_event, accepted, replaced, executed, canceled, rejected, encode_ouch,
}
use nasdaq_matching_engine.Client.{dispatch}

-- The fields of the response fit on the wire.
abbrev pub IsOutbound : Outbound → Type 0
IsOutbound (system_event m) = IsSystemEvent m
IsOutbound (accepted m) = IsAccepted m
IsOutbound (replaced m) = IsReplaced m
IsOutbound (executed m) = IsExecuted m
IsOutbound (canceled m) = IsCanceled m
IsOutbound (rejected m) = IsRejected m

-- The payload that `encode_ouch` gives for a response whose fields fit on the wire is dispatched to
-- the handler of that response, with the same fields.
pub dispatch-encode_ouch : (m : Outbound) → IsOutbound m → dispatch (encode_ouch m) ≡ some m
unfolding dispatch encode_ouch
dispatch-encode_ouch (system_event m) w =
    rw (type-encode_system_event m w, decode_system_event-encode_system_event m w) refl
dispatch-encode_ouch (accepted m) w =
    rw (type-encode_accepted m w, decode_accepted-encode_accepted m w) refl
dispatch-encode_ouch (replaced m) w =
    rw (type-encode_replaced m w, decode_replaced-encode_replaced m w) refl
dispatch-encode_ouch (executed m) w =
    rw (type-encode_executed m w, decode_executed-encode_executed m w) refl
dispatch-encode_ouch (canceled m) w =
    rw (type-encode_canceled m w, decode_canceled-encode_canceled m w) refl
dispatch-encode_ouch (rejected m) w =
    rw (type-encode_rejected m w, decode_rejected-encode_rejected m w) refl
