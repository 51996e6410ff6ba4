-- ===== src/Itch/HeaderTrip.antt =====
-- Reading the header of src/itch/itch.hpp back, under any type and with anything behind it.
use nasdaq_matching_engine.Common.{ℕ, ◌^◌, ◌<◌, ◌≡◌, refl, List, ◌++◌, length}
use nasdaq_matching_engine.Endian.{put_be16, get_be16, put_be48, get_be48}
use nasdaq_matching_engine.Endian.RoundTrip.{get_be16-put_be16, get_be48-put_be48}
use nasdaq_matching_engine.Itch.{Header, put_header, get_header}

pub record IsHeader (h : Header) : Type 0 where
  pub stock_locate_fits : h.stock_locate < 2 ^ 16
  pub tracking_fits : h.tracking < 2 ^ 16
  pub timestamp_fits : h.timestamp < 2 ^ 48

pub length-put_header : (type : ℕ) (h : Header) → length (put_header type h) ≡ 11
unfolding put_header put_be16 put_be48
length-put_header type h = refl

header_ext :
    (a b : Header)
    → a.stock_locate ≡ b.stock_locate
    → a.tracking ≡ b.tracking
    → a.timestamp ≡ b.timestamp
    → a ≡ b
header_ext a b p q r i = record { stock_locate = p i; tracking = q i; timestamp = r i }

pub get_header-put_header :
    (type : ℕ) (h : Header) (rest : List ℕ)
    → IsHeader h
    → get_header (put_header type h ++ rest) ≡ h
unfolding put_header get_header put_be16 put_be48 get_be16 get_be48
get_header-put_header type h rest w =
    header_ext (get_header (put_header type h ++ rest)) h
      (get_be16-put_be16 h.stock_locate rest w.stock_locate_fits)
      (get_be16-put_be16 h.tracking rest w.tracking_fits)
      (get_be48-put_be48 h.timestamp rest w.timestamp_fits)
