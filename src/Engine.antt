-- ===== src/Engine.antt =====
-- src/engine/engine.cpp and src/engine/engine.hpp: the engine that turns the clients' commands into
-- calls on the books, and the books' events into responses and market events. The book is a
-- parameter: a record of the operations that the engine calls, which return the events that the
-- book passes to its listener. The engine's callbacks do not call the book, so it makes no
-- difference that they run behind the operation here. The queues are the lists of what was pushed.
pub mod Events
pub mod Handling
pub mod Listening
pub mod Tokens
pub mod Contract
use nasdaq_matching_engine.Common.{
  ℕ, List, [], ◌∷◌, ◌++◌, Bool, true, false, ◌==◌, ◌&&◌, Option, none, some, if◌then◌else◌,
}
use nasdaq_matching_engine.Types.{Price, Qty, OrderId, Side}
use nasdaq_matching_engine.Book.{Event}
use nasdaq_matching_engine.Ouch.{token_view}
use nasdaq_matching_engine.Ouch.Outbound.{Rejected}
use nasdaq_matching_engine.Gateway.{Outbound, rejected}

-- The operations of a book that the engine calls, with the events of each in their order.
pub record BookOps (B : Type 0) : Type 0 where
  pub empty : B
  pub add : OrderId → Side → Price → Qty → B → List Event × B
  pub cancel : OrderId → Qty → B → List Event × B
  pub replace : OrderId → OrderId → Price → Qty → B → List Event × B
  pub matchable : Side → Price → B → Qty
  pub execute_ioc : OrderId → Side → Price → Qty → B → Qty × (List Event × B)

pub record ClientResponse : Type 0 where
  pub client_id : ℕ
  pub msg : Outbound

pub record MarketEvent : Type 0 where
  pub ts : ℕ
  pub symbol : List ℕ
  pub ev : Event

pub record OrderInfo : Type 0 where
  pub client_id : ℕ
  pub token : List ℕ
  pub symbol : List ℕ
  pub side : Side
  pub open_qty : Qty

-- Equality of strings.
abbrev pub same_chars : List ℕ → List ℕ → Bool
same_chars [] [] = true
same_chars [] (y ∷ ys) = false
same_chars (x ∷ xs) [] = false
same_chars (x ∷ xs) (y ∷ ys) = (x == y) && same_chars xs ys

-- A client and the text of a token.
abbrev pub Key : Type 0
Key = ℕ × List ℕ

unfoldable pub key : ℕ → List ℕ → Key
key client token = (client, token_view token)

abbrev pub same_key : Key → Key → Bool
same_key (a, s) (b, t) = (a == b) && same_chars s t

pub record Engine (B : Type 0) : Type 0 where
  pub books : List (List ℕ × B)
  pub orders : List (OrderId × OrderInfo)
  pub live_tokens : List (Key × OrderId)
  pub used_tokens : List Key
  pub next_ref : OrderId
  pub current_symbol : List ℕ
  pub now : ℕ
  pub suppress_ouch_cancel : Bool
  pub to_gateway : List ClientResponse
  pub to_feed : List MarketEvent

-- `live_tokens_.find`, `erase` and `set::contains` by key.
abbrev pub find_key : Key → List (Key × OrderId) → Option OrderId
find_key k [] = none
find_key k ((j, ref) ∷ m) = if same_key k j then some ref else find_key k m

abbrev pub erase_key : Key → List (Key × OrderId) → List (Key × OrderId)
erase_key k [] = []
erase_key k ((j, ref) ∷ m) = if same_key k j then erase_key k m else (j, ref) ∷ erase_key k m

abbrev pub has_key : Key → List Key → Bool
has_key k [] = false
has_key k (j ∷ ks) = if same_key k j then true else has_key k ks

module _ {B : Type 0} where
  unfoldable pub respond : ℕ → Outbound → Engine B → Engine B
  respond client m e = record e {
    to_gateway = e.to_gateway ++ record { client_id = client; msg = m } ∷ [];
  }

  unfoldable pub publish : Event → Engine B → Engine B
  publish ev e = record e {
    to_feed = e.to_feed ++ record { ts = e.now; symbol = e.current_symbol; ev = ev } ∷ [];
  }

  unfoldable pub token_used : ℕ → List ℕ → Engine B → Bool
  token_used client token e = has_key (key client token) e.used_tokens

  unfoldable pub reject : ℕ → List ℕ → ℕ → Engine B → Engine B
  reject client t reason e =
      respond client (rejected (record { timestamp = e.now; token = t; reason = reason })) e
