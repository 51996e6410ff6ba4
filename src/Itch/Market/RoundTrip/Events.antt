-- ===== src/Itch/Market/RoundTrip/Events.antt =====
-- Reading back the system event of src/itch/itch.hpp.
use nasdaq_matching_engine.Common.{ℕ, ◌^◌, ◌≡◌, ◌<◌, refl, List, [], ◌∷◌, some, length, drop, arith}
use nasdaq_matching_engine.Endian.{byte}
use nasdaq_matching_engine.Endian.Layout.{concat, char_at}
use nasdaq_matching_engine.Endian.Layout.{Sized, offset, drop-concat, length-concat, byte_lem}
use nasdaq_matching_engine.Itch.{put_header}
use nasdaq_matching_engine.Itch.HeaderTrip.{IsHeader, length-put_header, get_header-put_header}
use nasdaq_matching_engine.Itch.Market.{SystemEvent, encode_system_event, decode_system_event}

pub record IsSystemEvent (m : SystemEvent) : Type 0 where
  pub header_fits : IsHeader m.header
  pub event_code_fits : m.event_code < 2 ^ 8

module _ (m : SystemEvent) (w : IsSystemEvent m) where
  abbrev system_event_parts : List (List ℕ)
  system_event_parts = (put_header b'S' m.header) ∷ (byte m.event_code ∷ []) ∷ []

  abbrev system_event_sizes : List ℕ
  system_event_sizes = 11 ∷ 1 ∷ []

  system_event-Sized : Sized system_event_sizes system_event_parts
  system_event-Sized = (length-put_header b'S' m.header, (refl, tt))

  system_event_at :
      (k : ℕ)
      → drop (offset k system_event_sizes) (concat system_event_parts)
        ≡ concat (drop k system_event_parts)
  system_event_at = drop-concat system_event_sizes system_event_parts system_event-Sized

  pub length-encode_system_event : length (encode_system_event m) ≡ 12
  unfolding encode_system_event
  length-encode_system_event =
      length-concat system_event_sizes system_event_parts system_event-Sized

  pub type-encode_system_event : char_at 0 (encode_system_event m) ≡ b'S'
  unfolding encode_system_event char_at put_header
  type-encode_system_event = refl

  pub decode_system_event-encode_system_event : decode_system_event (encode_system_event m) ≡ some m
  unfolding decode_system_event encode_system_event char_at
  decode_system_event-encode_system_event =
      rw (length-concat system_event_sizes system_event_parts system_event-Sized, system_event_at 1)
        (ground (
          arith,
          get_header-put_header b'S' m.header (concat (drop 1 system_event_parts)) w.header_fits,
          byte_lem m.event_code w.event_code_fits,
        ))
