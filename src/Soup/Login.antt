-- ===== src/Soup/Login.antt =====
-- The login request of src/soup/soup.cpp: space-padded fields and a sequence number in decimal.
pub mod Digits
pub mod Requests
use nasdaq_matching_engine.Common.{
  ℕ, zero, suc, ◌+◌, ◌-◌, ◌*◌, ◌/◌, ◌%◌, ◌^◌, List, [], ◌∷◌, ◌++◌, Option, none, some, ltb, ◌==◌,
  not, ◌||◌, if◌then◌else◌, length, take, drop, replicate,
}
use nasdaq_matching_engine.Types.{fill_field, view_length}
use nasdaq_matching_engine.Soup.Frames.{append_packet}

unfoldable pub append_alpha : List ℕ → List ℕ → ℕ → List ℕ
append_alpha out s width = out ++ fill_field width s

-- `std::to_string`; a 64-bit number has at most 20 digits.
unfoldable pub digits_upto : ℕ → ℕ → List ℕ
digits_upto zero n = []
digits_upto (suc k) n =
    let front = digits_upto k (n / 10) in
    if ltb n 10 then (b'0' + n) ∷ [] else front ++ ((b'0' + n % 10) ∷ [])

unfoldable pub to_string : ℕ → List ℕ
to_string n = digits_upto 20 n

unfoldable pub append_seq : List ℕ → ℕ → ℕ → List ℕ
append_seq out seq width =
    let digits = to_string seq in out ++ (replicate (width - length digits) b' ' ++ digits)

-- The loop of `trim_field` over the spaces at the front, and the one over those at the end.
unfoldable pub trim_left : List ℕ → List ℕ
trim_left [] = []
trim_left (c ∷ cs) = let rest = trim_left cs in if c == b' ' then rest else c ∷ cs

unfoldable pub trim_field : List ℕ → ℕ → List ℕ
trim_field p n = let s = trim_left (take n p) in take (view_length s (length s)) s

unfoldable pub login_payload : List ℕ → List ℕ → List ℕ → ℕ → List ℕ
login_payload username password requested_session requested_seq =
    append_seq
      (append_alpha (append_alpha (append_alpha [] username 6) password 10) requested_session 10)
      requested_seq 20

unfoldable pub append_login_request : List ℕ → List ℕ → List ℕ → List ℕ → ℕ → List ℕ
append_login_request out username password requested_session requested_seq =
    append_packet out b'L' (login_payload username password requested_session requested_seq)

pub record LoginRequest : Type 0 where
  pub username : List ℕ
  pub password : List ℕ
  pub requested_session : List ℕ
  pub requested_seq : ℕ

-- The loop over the digits, in 64 bits.
unfoldable pub read_seq : List ℕ → ℕ → Option ℕ
read_seq [] seq = some seq
read_seq (c ∷ cs) seq =
    let rest = read_seq cs ((seq * 10 + (c - b'0')) % 2 ^ 64) in
    if ltb c b'0' || ltb b'9' c then none else rest

unfoldable pub login_request : List ℕ → Option ℕ → Option LoginRequest
login_request p none = none
login_request p (some seq) = some (record {
  username = trim_field p 6;
  password = trim_field (drop 6 p) 10;
  requested_session = trim_field (drop 16 p) 10;
  requested_seq = seq;
})

unfoldable pub decode_login_request : List ℕ → Option LoginRequest
decode_login_request p =
    if not (length p == 46) then none else login_request p (read_seq (trim_field (drop 26 p) 20) 0)
