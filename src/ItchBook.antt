-- ===== src/ItchBook.antt =====
-- src/client/itch_book.cpp: the book that a client rebuilds from ITCH messages. `orders_` and `books_`
-- are association lists; a side of a symbol's book is the list of its levels in the order of the map's
-- keys, each a price and the references of its orders. A side on the wire is its char.
pub mod Rows
pub mod Steps
pub mod Replay
pub mod Rounds
pub mod Matching
pub mod Books
pub mod Following
pub mod Outcomes
pub mod Calls
pub mod Integrity
use nasdaq_matching_engine.Common.{
  ℕ, ◌-◌, ◌+◌, Bool, true, false, List, [], ◌∷◌, ◌++◌, map, Option, none, some, leb, ltb, ◌==◌,
  if◌then◌else◌, length,
}
use nasdaq_matching_engine.Common.Int.{eq?, pos}
use nasdaq_matching_engine.Common.Words.{add64}
use nasdaq_matching_engine.Common.Maps.{find, erase}
use nasdaq_matching_engine.Types.{Price, Qty, Side, buy, sell}
use nasdaq_matching_engine.Book.{SnapshotOrder, SnapshotLevel, BookSnapshot, better}
use nasdaq_matching_engine.Itch.Codec
use nasdaq_matching_engine.Itch.Codec.{Message}
use nasdaq_matching_engine.Mold.{GapDetector, new_detector, on_packet, DownstreamPacket, parse}
use nasdaq_matching_engine.Engine.{same_chars}
use nasdaq_matching_engine.Engine.Events.{side_of_char}

pub record BuilderOrder : Type 0 where
  pub symbol : List ℕ
  pub side : Side
  pub price : Price
  pub qty : Qty

abbrev pub Rows : Type 0
Rows = List (Price × List ℕ)

pub record SymbolBook : Type 0 where
  pub bids : Rows
  pub asks : Rows

abbrev pub Books : Type 0
Books = List (List ℕ × SymbolBook)

pub record ItchBookBuilder : Type 0 where
  pub orders : List (ℕ × BuilderOrder)
  pub books : Books
  pub gaps : GapDetector
  pub messages : ℕ
  pub last_ts : ℕ
  pub executed_shares : ℕ
  pub last_trade_price : Price
  pub last_trade_qty : Qty

abbrev pub empty_book : SymbolBook
empty_book = record { bids = []; asks = [] }

abbrev pub new_builder : ItchBookBuilder
new_builder = record {
  orders = [];
  books = [];
  gaps = new_detector;
  messages = 0;
  last_ts = 0;
  executed_shares = 0;
  last_trade_price = pos 0;
  last_trade_qty = 0;
}

-- `books_[symbol]`, an empty book where there is none.
unfoldable pub book_of : List ℕ → Books → SymbolBook
book_of symbol [] = empty_book
book_of symbol ((s, b) ∷ bs) =
    let rest = book_of symbol bs in if same_chars symbol s then b else rest

unfoldable pub set_book : List ℕ → SymbolBook → Books → Books
set_book symbol book [] = (symbol, book) ∷ []
set_book symbol book ((s, b) ∷ bs) =
    let rest = set_book symbol book bs in
    if same_chars symbol s then (s, book) ∷ bs else (s, b) ∷ rest

abbrev pub rows_of : Side → SymbolBook → Rows
rows_of buy b = b.bids
rows_of sell b = b.asks

abbrev pub with_rows : Side → Rows → SymbolBook → SymbolBook
with_rows buy rows b = record b { bids = rows }
with_rows sell rows b = record b { asks = rows }

-- `side_map[price].push_back(ref)`
unfoldable pub add_row : Side → Price → ℕ → Rows → Rows
add_row side price ref [] = (price, ref ∷ []) ∷ []
add_row side price ref ((p, refs) ∷ rows) =
    if better side price p
    then (price, ref ∷ []) ∷ (p, refs) ∷ rows
    else if eq? p price
    then (p, refs ++ ref ∷ []) ∷ rows
    else (p, refs) ∷ add_row side price ref rows

-- `orders_[ref] = …`
unfoldable pub put_builder_order :
    ℕ → BuilderOrder → List (ℕ × BuilderOrder) → List (ℕ × BuilderOrder)
put_builder_order ref o [] = (ref, o) ∷ []
put_builder_order ref o ((r, x) ∷ os) =
    if r == ref then (r, o) ∷ os else (r, x) ∷ put_builder_order ref o os

unfoldable pub add_order : ℕ → List ℕ → Side → Price → Qty → ItchBookBuilder → ItchBookBuilder
add_order ref symbol side price shares b =
    let book = book_of symbol b.books in
    record b {
      orders =
          put_builder_order ref
            (record { symbol = symbol; side = side; price = price; qty = shares }) b.orders;
      books =
          set_book symbol (with_rows side (add_row side price ref (rows_of side book)) book)
            b.books;
    }

-- `std::list::remove`
unfoldable pub remove_ref : ℕ → List ℕ → List ℕ
remove_ref ref [] = []
remove_ref ref (r ∷ rs) = if r == ref then remove_ref ref rs else r ∷ remove_ref ref rs

-- `erase_from`
unfoldable pub erase_row : Price → ℕ → Rows → Rows
erase_row price ref [] = []
erase_row price ref ((p, refs) ∷ rows) =
    let left = remove_ref ref refs in
    if eq? p price
    then if length left == 0 then rows else (p, left) ∷ rows
    else (p, refs) ∷ erase_row price ref rows

-- `remove_order` once the order is found.
unfoldable pub remove_found : ℕ → BuilderOrder → ItchBookBuilder → ItchBookBuilder
remove_found ref o b =
    let book = book_of o.symbol b.books in
    record b {
      orders = erase ref b.orders;
      books =
          set_book o.symbol (with_rows o.side (erase_row o.price ref (rows_of o.side book)) book)
            b.books;
    }

unfoldable pub remove_order : ℕ → ItchBookBuilder → ItchBookBuilder
remove_order ref b = elim (find ref b.orders) [ none ↦ b | some o ↦ remove_found ref o b ]

unfoldable pub reduce_order : ℕ → Qty → ItchBookBuilder → ItchBookBuilder
reduce_order ref by b = elim (find ref b.orders) [
  | none ↦ b
  | some o ↦
      if leb o.qty by
      then remove_order ref b
      else record b { orders = put_builder_order ref (record o { qty = o.qty - by }) b.orders }
]

-- The visitor of `on_message`; the executions also note the last trade.
unfoldable pub note_trade : Option Price → ℕ → ItchBookBuilder → ItchBookBuilder
note_trade none shares b = record b {
  last_trade_qty = shares;
  executed_shares = add64 b.executed_shares shares;
}
note_trade (some price) shares b = record b {
  last_trade_price = price;
  last_trade_qty = shares;
  executed_shares = add64 b.executed_shares shares;
}

unfoldable pub price_of : ℕ → ItchBookBuilder → Option Price
price_of ref b = elim (find ref b.orders) [ none ↦ none | some o ↦ some o.price ]

unfoldable pub replace_order : ℕ → ℕ → Price → Qty → ItchBookBuilder → ItchBookBuilder
replace_order old new price shares b = elim (find old b.orders) [
  | none ↦ b
  | some o ↦ add_order new o.symbol o.side price shares (remove_order old b)
]

unfoldable pub visit : Message → ItchBookBuilder → ItchBookBuilder
visit (Codec.add_order m) b =
    add_order m.order_ref m.stock (side_of_char m.side) m.price m.shares
      (record b { last_ts = m.header.timestamp })
visit (Codec.add_order_mpid m) b =
    add_order m.add.order_ref m.add.stock (side_of_char m.add.side) m.add.price m.add.shares
      (record b { last_ts = m.add.header.timestamp })
visit (Codec.order_executed m) b = reduce_order m.order_ref m.executed_shares (
    note_trade (price_of m.order_ref b) m.executed_shares
      (record b { last_ts = m.header.timestamp }))
visit (Codec.order_executed_with_price m) b = reduce_order m.exec.order_ref m.exec.executed_shares (
    note_trade (some m.execution_price) m.exec.executed_shares
      (record b { last_ts = m.exec.header.timestamp }))
visit (Codec.order_cancel m) b =
    reduce_order m.order_ref m.canceled_shares (record b { last_ts = m.header.timestamp })
visit (Codec.order_delete m) b =
    remove_order m.order_ref (record b { last_ts = m.header.timestamp })
visit (Codec.order_replace m) b =
    replace_order m.original_ref m.new_ref m.price m.shares
      (record b { last_ts = m.header.timestamp })
visit (Codec.system_event m) b = b
visit (Codec.stock_directory m) b = b
visit (Codec.trading_action m) b = b
visit (Codec.trade m) b = b

unfoldable pub on_message : Message → ItchBookBuilder → ItchBookBuilder
on_message m b = visit m (record b { messages = add64 b.messages 1 })

-- The loop over the messages of a packet; those that do not decode are passed over. `behind n` is what
-- stands in memory behind the message that `n` more messages follow.
unfoldable pub on_messages : (ℕ → List ℕ) → List (List ℕ) → ItchBookBuilder → ItchBookBuilder
on_messages behind [] b = b
on_messages behind (bytes ∷ rest) b = elim (Codec.decode (behind (length rest)) bytes) [
  | none ↦ on_messages behind rest b
  | some m ↦ on_messages behind rest (on_message m b)
]

unfoldable pub on_parsed :
    (ℕ → List ℕ) → DownstreamPacket → ItchBookBuilder → Bool × ItchBookBuilder
on_parsed behind p b =
    let (gap, gaps) = on_packet p.seq (length p.messages) b.gaps in
    (p.end_of_session, on_messages behind p.messages (record b { gaps = gaps }))

unfoldable pub on_mold_packet : (ℕ → List ℕ) → List ℕ → ItchBookBuilder → Bool × ItchBookBuilder
on_mold_packet behind bytes b = elim (parse bytes) [
  | none ↦ (false, b)
  | some p ↦ on_parsed behind p b
]

-- `orders_.at(ref).qty`, which is there for each reference of a row.
unfoldable pub qty_of : ℕ → List (ℕ × BuilderOrder) → Qty
qty_of ref orders = elim (find ref orders) [ none ↦ 0 | some o ↦ o.qty ]

unfoldable pub fill_rows : List (ℕ × BuilderOrder) → Rows → List SnapshotLevel
fill_rows orders rows =
    map
      (λ (p, refs). record {
        price = p;
        orders = map (λ r. record { id = r; qty = qty_of r orders }) refs;
      })
      rows

unfoldable pub snapshot : List ℕ → ItchBookBuilder → BookSnapshot
snapshot symbol b =
    let book = book_of symbol b.books in
    record { bids = fill_rows b.orders book.bids; asks = fill_rows b.orders book.asks }
