-- ===== src/Tests/Engines.antt =====
-- The engine over the contract's books at concrete commands.
use nasdaq_matching_engine.Common.{ℕ, ◌≡◌, refl, List, [], ◌∷◌, inl, inr, arith, false}
use nasdaq_matching_engine.Common.Int.{pos}
use nasdaq_matching_engine.Book.Priority.{Book}
use nasdaq_matching_engine.Ouch.Inbound.{EnterOrder}
use nasdaq_matching_engine.Gateway.{enter, cancel, Command}
use nasdaq_matching_engine.Engine.{Engine, token_used, reject}
use nasdaq_matching_engine.Engine.Handling.{handle_enter}
use nasdaq_matching_engine.Engine.Tokens.{process_all, handle_enter-twice}
use nasdaq_matching_engine.Engine.Contract.{priority_ops}

abbrev first_token : List ℕ
first_token = 84 ∷ 49 ∷ 32 ∷ 32 ∷ 32 ∷ 32 ∷ 32 ∷ 32 ∷ 32 ∷ 32 ∷ 32 ∷ 32 ∷ 32 ∷ 32 ∷ []

abbrev order_for : List ℕ → ℕ → ℕ → ℕ → EnterOrder
order_for t side shares price = record {
  token = t;
  side = side;
  shares = shares;
  stock = 65 ∷ 65 ∷ 80 ∷ 76 ∷ 32 ∷ 32 ∷ 32 ∷ 32 ∷ [];
  price = pos price;
  tif = 99999;
  firm = 70 ∷ 73 ∷ 82 ∷ 77 ∷ [];
  display = b'Y';
  capacity = b'P';
  intermarket_sweep = b'N';
  min_qty = 0;
  cross_type = b'N';
  customer_type = b'R';
}

abbrev new_engine : Engine Book
new_engine = record {
  books = [];
  orders = [];
  live_tokens = [];
  used_tokens = [];
  next_ref = 1;
  current_symbol = [];
  now = 0;
  suppress_ouch_cancel = false;
  to_gateway = [];
  to_feed = [];
}

-- Another client sells into the order, and then its own client cancels what is left.
abbrev between : List (ℕ × Command)
between =
    (10, record { client_id = 8; msg = enter (order_for first_token b'S' 40 1000000) })
    ∷ (20, record { client_id = 7; msg = cancel (record { token = first_token; shares = 0 }) })
    ∷ []

handle_enter-twice_example :
    let bid = order_for first_token b'B' 100 1000000 in
    let later = process_all priority_ops between (handle_enter priority_ops 7 bid new_engine) in
    handle_enter priority_ops 7 (order_for first_token b'S' 5 2000000) later
    ≡ reject 7 first_token b'T' later
handle_enter-twice_example =
    handle_enter-twice priority_ops 7 (order_for first_token b'B' 100 1000000)
      (order_for first_token b'S' 5 2000000) new_engine between
      (record {
        fresh = unfold token_used in refl;
        priced = inr (omega arith);
        sized = omega arith;
        sided = inl refl;
      })
      refl
