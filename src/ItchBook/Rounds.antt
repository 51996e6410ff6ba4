-- ===== src/ItchBook/Rounds.antt =====
-- The rounds of match_side in src/book/order_book.cpp, one outcome each.
use nasdaq_matching_engine.Common.{
  ◌≡◌, refl, true, false, List, [], ◌∷◌, ◌==◌, if◌then◌else◌, arith, ==_self,
}
use nasdaq_matching_engine.Common.Int.{eq?}
use nasdaq_matching_engine.Common.Words.{sub32}
use nasdaq_matching_engine.Common.Maps.{erase}
use nasdaq_matching_engine.Types.{Price, Qty, OrderId, Side}
use nasdaq_matching_engine.Book.{Order, Fill, execute, exec_qty, left_open}
use nasdaq_matching_engine.Book.Reference.{
  Level, Index, is_empty, erase_order, erase_from, set_open, reduce_at, consume_level,
}

-- A level that is used up goes.
abbrev pub drop_empty : Level → List Level → List Level
drop_empty l ls = if is_empty l then ls else l ∷ ls

pub erase_first :
    (o : Order) (os : List Order) (p : Price) (total : Qty) (ls : List Level)
    → o.price ≡ p
    → erase_from o.id o.open_qty o.price (record { price = p; total = total; orders = o ∷ os } ∷ ls)
      ≡ drop_empty (record { price = p; total = sub32 total o.open_qty; orders = os }) ls
unfolding erase_from erase_order
erase_first o os p total ls e =
    let same : eq? p o.price ≡ true = rw e (ground arith) in rw (same, ==_self o.id) refl

pub reduce_first :
    (o : Order) (os : List Order) (p : Price) (total : Qty) (ls : List Level) (keep gone : Qty)
    → o.price ≡ p
    → reduce_at o.id keep gone o.price (record { price = p; total = total; orders = o ∷ os } ∷ ls)
      ≡ record { price = p; total = sub32 total gone; orders = record o { open_qty = keep } ∷ os }
        ∷ ls
unfolding reduce_at set_open
reduce_first o os p total ls keep gone e =
    let same : eq? p o.price ≡ true = rw e (ground arith) in rw (same, ==_self o.id) refl

pub consume_level-next :
    (id : OrderId) (side : Side) (p : Price) (total : Qty) (o : Order) (os : List Order)
    (index : Index) (f : Fill)
    → (f.qty == 0) ≡ false
    → ((left_open f o).open_qty == 0) ≡ true
    → consume_level id side p total (o ∷ os) index f
      ≡ consume_level id side p
          (sub32 total (exec_qty f.qty o.open_qty))
          os
          (erase o.id index)
          (execute id side o f)
unfolding consume_level
consume_level-next id side p total o os index f q z = rw (q, z) refl

pub consume_level-part :
    (id : OrderId) (side : Side) (p : Price) (total : Qty) (o : Order) (os : List Order)
    (index : Index) (f : Fill)
    → (f.qty == 0) ≡ false
    → ((left_open f o).open_qty == 0) ≡ false
    → consume_level id side p total (o ∷ os) index f ≡ record {
      book = record {
        price = p;
        total = sub32 total (exec_qty f.qty o.open_qty);
        orders = left_open f o ∷ os;
      };
      index = index;
      fill = execute id side o f;
    }
unfolding consume_level
consume_level-part id side p total o os index f q z = rw (q, z) refl

pub consume_level-stop :
    (id : OrderId) (side : Side) (p : Price) (total : Qty) (o : Order) (os : List Order)
    (index : Index) (f : Fill)
    → (f.qty == 0) ≡ true
    → consume_level id side p total (o ∷ os) index f ≡ record {
      book = record { price = p; total = total; orders = o ∷ os };
      index = index;
      fill = f;
    }
unfolding consume_level
consume_level-stop id side p total o os index f q = rw q refl

pub consume_level-none :
    (id : OrderId) (side : Side) (p : Price) (total : Qty) (index : Index) (f : Fill)
    → consume_level id side p total [] index f
      ≡ record { book = record { price = p; total = total; orders = [] }; index = index; fill = f }
unfolding consume_level
consume_level-none id side p total index f = refl
