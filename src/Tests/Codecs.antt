-- ===== src/Tests/Codecs.antt =====
-- The codecs, the framing and the gateway at concrete messages.
use nasdaq_matching_engine.Common.{
  ◌&&◌, ◌==◌, ℕ, ◌+◌, ◌*◌, ◌/◌, ◌%◌, ◌^◌, ◌≡◌, ◌≤◌, refl, List, [], ◌∷◌, ◌++◌, arith, none, some,
  length, take, inl, inr,
}
use nasdaq_matching_engine.Common.Int.{pos}
use nasdaq_matching_engine.Endian.{put_be16, get_be32}
use nasdaq_matching_engine.Endian.Layout.{char_at}
use nasdaq_matching_engine.Itch.Orders.{AddOrderMpid}
use nasdaq_matching_engine.Itch.Market.{Trade, trade_size, encode_trade, decode_trade}
use nasdaq_matching_engine.Itch.Market.RoundTrip.{IsTrade, decode_trade-encode_trade}
use nasdaq_matching_engine.Itch.Codec.{add_order_mpid, encode, decode, message_size}
use nasdaq_matching_engine.Itch.Codec.RoundTrip.{IsMessage, decode-encode}
use nasdaq_matching_engine.Itch.Codec.Refusing.{is_some, is_decoded, decode_accepts}
use nasdaq_matching_engine.Itch.Raw.{append_raw, write_all, open_raw, read_all}
use nasdaq_matching_engine.Itch.Raw.Reading.{IsRaw, read_all-write_all}
use nasdaq_matching_engine.Ouch.Inbound.{EnterOrder}
use nasdaq_matching_engine.Gateway.{
  enter, answered, risk_reject, handle_ouch, conn_listener, Outbound, executed, encode_ouch,
}
use nasdaq_matching_engine.Gateway.Risk.{
  encode_inbound, IsInbound, handle_ouch-encode_inbound, IsSafe, handle_ouch-IsSafe,
  serve-conn_listener,
}
use nasdaq_matching_engine.Client.{dispatch}
use nasdaq_matching_engine.Client.Dispatching.{dispatch-encode_ouch}
use nasdaq_matching_engine.Soup.Frames.{
  Packet, new_parser, push_bytes, append_packet, write_packets, receive,
}
use nasdaq_matching_engine.Soup.Frames.Parsing.{pending, new_parser-IsParser, push_bytes-IsParser}
use nasdaq_matching_engine.Soup.Frames.Streams.{receive-write_packets}
use nasdaq_matching_engine.Soup.Login.{append_login_request}
use nasdaq_matching_engine.Soup.Session.{ServerSession, new_session, logged_in, packet_loop}
use nasdaq_matching_engine.Soup.Session.Ending.{packet_loop-ends}
use nasdaq_matching_engine.Gateway.Rounds.{conn_listener-KeepsParser}
use nasdaq_matching_engine.Soup.Session.Order.{rank, received, ticked, serve, Call}

abbrev spaces_8 : List ℕ
spaces_8 = 65 ∷ 65 ∷ 80 ∷ 76 ∷ 32 ∷ 32 ∷ 32 ∷ 32 ∷ []

abbrev attributed : AddOrderMpid
attributed = record {
  add = record {
    header = record { stock_locate = 3; tracking = 0; timestamp = 34200000000000 };
    order_ref = 41;
    side = b'B';
    shares = 300;
    stock = spaces_8;
    price = pos 1895000;
  };
  attribution = 78 ∷ 83 ∷ 81 ∷ 32 ∷ [];
}

attributed-IsMessage : IsMessage (add_order_mpid attributed)
attributed-IsMessage = record {
  add_fits = record {
    header_fits = record {
      stock_locate_fits = omega arith;
      tracking_fits = omega arith;
      timestamp_fits = omega arith;
    };
    order_ref_fits = omega arith;
    side_fits = omega arith;
    shares_fits = omega arith;
    stock_fits = refl;
    price_fits = omega arith;
  };
  attribution_fits = refl;
}

decode-encode_example :
    decode (1 ∷ []) (encode (add_order_mpid attributed)) ≡ some (add_order_mpid attributed)
decode-encode_example = decode-encode (1 ∷ []) (add_order_mpid attributed) attributed-IsMessage

-- A payload with one byte less than its type has.
abbrev short_message : List ℕ
short_message = b'D' ∷ 0 ∷ 1 ∷ 0 ∷ 0 ∷ 0 ∷ 0 ∷ 0 ∷ 0 ∷ 0 ∷ 0 ∷ 0 ∷ 0 ∷ 0 ∷ 0 ∷ 0 ∷ 0 ∷ 7 ∷ []

decode_accepts_example : is_some (decode [] short_message) ≡ (
    is_decoded (char_at 0 short_message)
    && (length short_message == message_size (char_at 0 short_message)))
decode_accepts_example = decode_accepts [] short_message

abbrev unknown_message : List ℕ
unknown_message = b'z' ∷ 1 ∷ 2 ∷ []

abbrev status_message : List ℕ
status_message = b'W' ∷ 0 ∷ 0 ∷ 0 ∷ 0 ∷ 0 ∷ 0 ∷ 0 ∷ 0 ∷ 0 ∷ 0 ∷ 1 ∷ []

unknown_message-IsRaw : IsRaw unknown_message
unfolding message_size char_at
unknown_message-IsRaw = record { nonempty = omega arith; fits = omega arith; framed = inl refl }

status_message-IsRaw : IsRaw status_message
unfolding message_size char_at
status_message-IsRaw = record { nonempty = omega arith; fits = omega arith; framed = inr refl }

abbrev whole : List (List ℕ)
whole = status_message ∷ unknown_message ∷ []

read_all-write_all_example :
    read_all 3 (open_raw (write_all whole [] ++ take 9 (append_raw [] status_message)))
    ≡ (whole, record { file = []; offset = length (write_all whole []) % 2 ^ 64; error = none })
read_all-write_all_example =
    read_all-write_all whole status_message 9 (status_message-IsRaw, (unknown_message-IsRaw, tt))
      status_message-IsRaw (unfold append_raw put_be16 in omega arith)

abbrev a_token : List ℕ
a_token = 84 ∷ 49 ∷ 32 ∷ 32 ∷ 32 ∷ 32 ∷ 32 ∷ 32 ∷ 32 ∷ 32 ∷ 32 ∷ 32 ∷ 32 ∷ 32 ∷ []

abbrev large_order : EnterOrder
large_order = record {
  token = a_token;
  side = b'S';
  shares = 1000001;
  stock = spaces_8;
  price = pos 2147483647;
  tif = 0;
  firm = 70 ∷ 73 ∷ 82 ∷ 77 ∷ [];
  display = b'Y';
  capacity = b'P';
  intermarket_sweep = b'N';
  min_qty = 0;
  cross_type = b'N';
  customer_type = b'R';
}

large_order-IsInbound : IsInbound (enter large_order)
large_order-IsInbound = record {
  token_fits = refl;
  side_fits = omega arith;
  shares_fits = omega arith;
  stock_fits = refl;
  price_fits = omega arith;
  tif_fits = omega arith;
  firm_fits = refl;
  display_fits = omega arith;
  capacity_fits = omega arith;
  intermarket_sweep_fits = omega arith;
  min_qty_fits = omega arith;
  cross_type_fits = omega arith;
  customer_type_fits = omega arith;
}

handle_ouch-encode_inbound_example :
    handle_ouch 7 100 (encode_inbound (enter large_order)) ≡ answered (risk_reject 100 a_token)
handle_ouch-encode_inbound_example =
    handle_ouch-encode_inbound 7 100 (enter large_order) large_order-IsInbound

handle_ouch-IsSafe_example : IsSafe 7 (handle_ouch 7 100 (encode_inbound (enter large_order)))
handle_ouch-IsSafe_example = handle_ouch-IsSafe 7 100 (encode_inbound (enter large_order))

abbrev execution : Outbound
execution = executed (record {
  timestamp = 34200000000000;
  token = a_token;
  executed_shares = 100;
  execution_price = pos 1895000;
  liquidity_flag = b'A';
  match_number = 12;
})

dispatch-encode_ouch_example : dispatch (encode_ouch execution) ≡ some execution
dispatch-encode_ouch_example = dispatch-encode_ouch execution (record {
  timestamp_fits = omega arith;
  token_fits = refl;
  executed_shares_fits = omega arith;
  execution_price_fits = omega arith;
  liquidity_flag_fits = omega arith;
  match_number_fits = omega arith;
})

abbrev two_packets : List Packet
two_packets =
    record { type = b'R'; payload = [] } ∷ record { type = b'U'; payload = b'X' ∷ 1 ∷ [] } ∷ []

-- The two packets cut in the middle of the second length.
abbrev two_chunks : List (List ℕ)
two_chunks = (0 ∷ 1 ∷ b'R' ∷ 0 ∷ []) ∷ (3 ∷ b'U' ∷ b'X' ∷ 1 ∷ []) ∷ []

receive-write_packets_example :
    ((receive two_chunks new_parser).0 ≡ two_packets)
    × (pending (receive two_chunks new_parser).1 ≡ [])
receive-write_packets_example =
    receive-write_packets two_packets two_chunks (omega arith, (omega arith, tt))
      (unfold write_packets append_packet put_be16 in refl)

abbrev logs_in : List Call
logs_in =
    received (append_login_request [] (65 ∷ []) (66 ∷ []) [] 1) 5
    ∷ ticked 2000000000
    ∷ received (0 ∷ 1 ∷ b'O' ∷ []) 2000000001
    ∷ []

serve-conn_listener_example :
    rank (new_session 0).state
    ≤ rank (serve (conn_listener 7 0) logs_in (new_session 0, [])).0.state
serve-conn_listener_example = serve-conn_listener 7 0 logs_in (new_session 0, [])

-- A whole packet waits in the buffer, and the first byte of one more.
abbrev waiting : ServerSession
waiting = record {
  parser = push_bytes (0 ∷ 1 ∷ b'R' ∷ 0 ∷ []) new_parser;
  state = logged_in;
  out = [];
  last_recv_ns = 0;
  last_send_ns = 0;
}

packet_loop-ends_example :
    packet_loop (conn_listener 7 0) 5 (waiting, [])
    ≡ packet_loop (conn_listener 7 0) 9 (waiting, [])
packet_loop-ends_example =
    packet_loop-ends (conn_listener 7 0) (conn_listener-KeepsParser 7 0) 5 9 (waiting, [])
      (push_bytes-IsParser (0 ∷ 1 ∷ b'R' ∷ 0 ∷ []) new_parser new_parser-IsParser)
      (unfold push_bytes in omega arith) (unfold push_bytes in omega arith)

-- A trade whose match number needs more than 32 bits, with a 9 behind its 44 bytes.
abbrev traded : Trade
traded = record {
  header = record { stock_locate = 1; tracking = 0; timestamp = 34200000000000 };
  order_ref = 0;
  side = b'B';
  shares = 100;
  stock = 65 ∷ 65 ∷ 80 ∷ 76 ∷ 32 ∷ 32 ∷ 32 ∷ 32 ∷ [];
  price = pos 1850000;
  match_number = 4294967373;
}

traded-IsTrade : IsTrade traded
traded-IsTrade = record {
  header_fits = record {
    stock_locate_fits = omega arith;
    tracking_fits = omega arith;
    timestamp_fits = omega arith;
  };
  order_ref_fits = omega arith;
  side_fits = omega arith;
  shares_fits = omega arith;
  stock_fits = refl;
  price_fits = omega arith;
  match_number_fits = omega arith;
}

decode_trade-encode_trade_example :
    decode_trade (0 ∷ 0 ∷ 0 ∷ 9 ∷ []) (take trade_size (encode_trade (0 ∷ 0 ∷ 0 ∷ 0 ∷ []) traded))
    ≡ some (record traded {
      match_number = traded.match_number / 2 ^ 32 * 2 ^ 32 + get_be32 (0 ∷ 0 ∷ 0 ∷ 9 ∷ []);
    })
decode_trade-encode_trade_example =
    decode_trade-encode_trade (0 ∷ 0 ∷ 0 ∷ 0 ∷ []) traded traded-IsTrade refl (0 ∷ 0 ∷ 0 ∷ 9 ∷ [])
