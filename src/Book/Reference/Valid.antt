-- ===== src/Book/Reference/Valid.antt =====
-- What `check_invariants` of src/book/order_book.cpp tests, as predicates.
use nasdaq_matching_engine.Common.{
  ℕ, ◌+◌, ◌%◌, ◌≤◌, ◌<◌, ◌≡◌, true, false, List, [], ◌∷◌, ◌++◌, Option, none, some, All,
}
use nasdaq_matching_engine.Common.Words.{word32}
use nasdaq_matching_engine.Common.Maps.{find}
use nasdaq_matching_engine.Types.{Price, OrderId, Side, buy, sell}
use nasdaq_matching_engine.Book.{Order, crosses, better}
use nasdaq_matching_engine.Book.Priority
use nasdaq_matching_engine.Book.Priority.{locate, or_else}
use nasdaq_matching_engine.Book.Priority.Orders.{count}
use nasdaq_matching_engine.Book.Reference.{Level, Handle, Index, OrderBook, is_empty}

-- The orders of a side, in priority order.
abbrev pub flatten : List Level → List Order
flatten [] = []
flatten (l ∷ ls) = l.orders ++ flatten ls

unfoldable pub sum_open : List Order → ℕ
sum_open [] = 0
sum_open (o ∷ os) = o.open_qty + sum_open os

-- An order that may stand in the level `p` of the side `s`.
abbrev pub Fits : Side → Price → Order → Type 0
Fits s p o = (o.price ≡ p) × (o.side ≡ s) × (0 < o.open_qty)

pub record IsLevel (s : Side) (l : Level) : Type 0 where
  pub occupied : is_empty l ≡ false
  pub fits : All (Fits s l.price) l.orders
  pub summed : l.total ≡ sum_open l.orders % word32

-- The keys of a std::map come in the order of its comparator.
abbrev pub Behind : Side → Price → List Level → Type 0
Behind s p [] = Unit {0}
Behind s p (l ∷ ls) = (better s p l.price ≡ true) × Behind s p ls

abbrev pub IsSorted : Side → List Level → Type 0
IsSorted s [] = Unit {0}
IsSorted s (l ∷ ls) = Behind s l.price ls × IsSorted s ls

abbrev pub AreLevels : Side → List Level → Type 0
AreLevels s ls = All (IsLevel s) ls

abbrev pub handle_of : Order → Handle
handle_of o = record { side = o.side; price = o.price }

abbrev pub handle_in : OrderId → List Order → List Order → Option Handle
handle_in id xs ys = elim (or_else (locate id xs) (locate id ys)) [
  | none ↦ none
  | some o ↦ some (handle_of o)
]

-- The index finds exactly the resting orders, each with its side and price.
abbrev pub Tracks : Index → List Order → List Order → Type 0
Tracks index xs ys = (k : OrderId) → find k index ≡ handle_in k xs ys

-- No id rests twice.
abbrev pub AreDistinct : List Order → List Order → Type 0
AreDistinct xs ys = (k : OrderId) → count k xs + count k ys ≤ 1

abbrev pub NotCrossed : List Level → List Level → Type 0
NotCrossed [] asks = Unit {0}
NotCrossed (b ∷ bids) [] = Unit {0}
NotCrossed (b ∷ bids) (a ∷ asks) = crosses buy b.price a.price ≡ false

pub record IsValid (b : OrderBook) : Type 0 where
  pub bid_levels : AreLevels buy b.bids
  pub ask_levels : AreLevels sell b.asks
  pub bids_sorted : IsSorted buy b.bids
  pub asks_sorted : IsSorted sell b.asks
  pub distinct : AreDistinct (flatten b.bids) (flatten b.asks)
  pub tracked : Tracks b.index (flatten b.bids) (flatten b.asks)
  pub not_crossed : NotCrossed b.bids b.asks

-- The contract's view of the book.
abbrev pub view : OrderBook → Priority.Book
view b = record {
  bids = flatten b.bids;
  asks = flatten b.asks;
  next_match_id = b.next_match_id;
  log = b.log;
}
