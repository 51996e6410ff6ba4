-- ===== src/Tests/Texts.antt =====
-- Padded texts and a login request at concrete values.
use nasdaq_matching_engine.Common.{ℕ, ◌≡◌, refl, List, [], ◌∷◌, arith, some}
use nasdaq_matching_engine.Types.{view_length}
use nasdaq_matching_engine.Soup.Login.{login_payload, decode_login_request, trim_left}
use nasdaq_matching_engine.Soup.Login.Requests.{IsField, decode_login_request-login_payload}

abbrev ticker : List ℕ
ticker = 65 ∷ 65 ∷ 80 ∷ 76 ∷ []

ticker-IsField : IsField 6 ticker
unfolding view_length trim_left
ticker-IsField = record { fits = omega arith; trimmed = refl; starts = refl }

empty-IsField : IsField 10 []
unfolding view_length trim_left
empty-IsField = record { fits = omega arith; trimmed = refl; starts = refl }

decode_login_request-login_payload_example :
    decode_login_request (login_payload ticker [] [] 1207)
    ≡ some
        (record { username = ticker; password = []; requested_session = []; requested_seq = 1207 })
decode_login_request-login_payload_example =
    decode_login_request-login_payload ticker [] [] 1207 ticker-IsField empty-IsField empty-IsField
      (omega arith)
