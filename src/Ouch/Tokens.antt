-- ===== src/Ouch/Tokens.antt =====
-- Tokens of src/ouch/ouch.hpp: reading the view of a padded token.
use nasdaq_matching_engine.Common.{◌≤◌, ◌≡◌, List, ℕ, length}
use nasdaq_matching_engine.Types.Padding.{IsTrimmed, view-fill_field}
use nasdaq_matching_engine.Ouch.{make_token, token_view}

-- `token_view` gives back the text of at most 14 chars that `make_token` padded, if it does not end
-- in a space.
pub token_view-make_token :
    (sv : List ℕ) → length sv ≤ 14 → IsTrimmed sv → token_view (make_token sv) ≡ sv
unfolding token_view make_token
token_view-make_token sv h w = view-fill_field 14 sv h w
