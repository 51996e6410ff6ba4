-- ===== src/FastBook.antt =====
-- src/book/fast_book.hpp and fast_book.cpp: the pooled book. Its state is declared here. The pool is
-- a list of orders with the indices of their neighbours, a level has the indices of its first and its
-- last order, and `nil` stands for no order. A ladder index of -1 is `none`. The const functions that
-- move a cursor return the book. Orders are known to the index by their ids.
pub mod Pool
pub mod Chains
pub mod Links
pub mod Unlinking
pub mod Levels
pub mod Sides
pub mod Cursors
pub mod Matching
pub mod Executing
pub mod Consuming
pub mod Handling
pub mod Reading
use mathlib.Core.Option
use nasdaq_matching_engine.Common.{
  ℕ, ◌*◌, ◌^◌, ◌%◌, Bool, true, false, List, [], Option, none, some,
}
use nasdaq_matching_engine.Common.Int.{ℤ, pos}
use nasdaq_matching_engine.Types.{Price, Qty, OrderId, Side, buy, sell}
use nasdaq_matching_engine.Book.{Event}
use nasdaq_matching_engine.FlatMap.{FlatMap, new_map}

-- `kNil`
abbrev pub nil : ℕ
nil = 4294967295

pub record FOrder : Type 0 where
  pub id : OrderId
  pub price : Price
  pub open_qty : Qty
  pub prev : ℕ
  pub next : ℕ
  pub side : Side

pub record Level : Type 0 where
  pub total : Qty
  pub head : ℕ
  pub tail : ℕ

-- `Level{}`
abbrev pub no_level : Level
no_level = record { total = 0; head = nil; tail = nil }

pub record Config : Type 0 where
  pub tick_size : ℕ
  pub band_half_ticks : ℕ
  pub expected_orders : ℕ

pub record FastBook : Type 0 where
  pub cfg : Config
  pub band_set : Bool
  pub base : Price
  pub ladder : List Level
  pub fb_bids : List (Price × Level)
  pub fb_asks : List (Price × Level)
  pub bid_cursor : Option ℕ
  pub ask_cursor : ℕ
  pub pool : List FOrder
  pub free : List ℕ
  pub index : FlatMap
  pub next_match_id : ℕ
  pub log : List Event

unfoldable pub book_with_index : Config → FlatMap → FastBook
book_with_index cfg index = record {
  cfg = cfg;
  band_set = false;
  base = pos 0;
  ladder = [];
  fb_bids = [];
  fb_asks = [];
  bid_cursor = none;
  ask_cursor = 0;
  pool = [];
  free = [];
  index = index;
  next_match_id = 1;
  log = [];
}

-- The constructor: the size of the index is a `size_t`. `none` is an index whose constructor never ends.
unfoldable pub new_book : Config → Option FastBook
new_book cfg = Option.map (book_with_index cfg) (new_map (cfg.expected_orders * 2 % 2 ^ 64))
