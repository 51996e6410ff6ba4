-- ===== src/Book/Reference/Sides.antt =====
-- `IsValid`, which speaks of bids and asks as `check_invariants` of src/book/order_book.cpp does, and
-- `IsPair`, which speaks of the side of an order and the opposite one.
use nasdaq_matching_engine.Common.{◌≡◌, true, false, List, [], ◌∷◌, arith}
use nasdaq_matching_engine.Types.{Price, Side, buy, sell}
use nasdaq_matching_engine.Book.{Event, crosses, better, opposite}
use nasdaq_matching_engine.Book.Reference.{Level, OrderBook, side_of, emit}
use nasdaq_matching_engine.Book.Reference.Pair.{Clear, AllClear, IsPair, IsPair-flip}
use nasdaq_matching_engine.Book.Reference.Valid.{Behind, IsSorted, NotCrossed, IsValid}

clear_behind :
    (s : Side) (p a m : Price)
    → crosses s p a ≡ false
    → better (opposite s) a m ≡ true
    → crosses s p m ≡ false
clear_behind buy p a m h b = ground arith
clear_behind sell p a m h b = ground arith

clear_worse :
    (s : Side) (p q a : Price) → crosses s p a ≡ false → better s p q ≡ true → crosses s q a ≡ false
clear_worse buy p q a h b = ground arith
clear_worse sell p q a h b = ground arith

pub Clear-Behind :
    (s : Side) (p a : Price) (ls : List Level)
    → crosses s p a ≡ false
    → Behind (opposite s) a ls
    → Clear s p ls
Clear-Behind s p a [] h b = tt
Clear-Behind s p a (l ∷ ls) h (b, bs) = (clear_behind s p a l.price h b, Clear-Behind s p a ls h bs)

Clear-worse :
    (s : Side) (p q : Price) (ls : List Level) → better s p q ≡ true → Clear s p ls → Clear s q ls
Clear-worse s p q [] h c = tt
Clear-worse s p q (l ∷ ls) h (c, cs) = (clear_worse s p q l.price c h, Clear-worse s p q ls h cs)

AllClear-Behind :
    (s : Side) (p : Price) (own opp : List Level)
    → Clear s p opp
    → Behind s p own
    → AllClear s own opp
AllClear-Behind s p [] opp c b = tt
AllClear-Behind s p (l ∷ ls) opp c (b, bs) =
    (Clear-worse s p l.price opp b c, AllClear-Behind s p ls opp c bs)

AllClear-nil' : (s : Side) (own : List Level) → AllClear s own []
AllClear-nil' s [] = tt
AllClear-nil' s (l ∷ ls) = (tt, AllClear-nil' s ls)

AllClear-of_heads :
    (bids asks : List Level)
    → IsSorted buy bids
    → IsSorted sell asks
    → NotCrossed bids asks
    → AllClear buy bids asks
AllClear-of_heads [] asks b a n = tt
AllClear-of_heads (x ∷ bids) [] b a n = AllClear-nil' buy (x ∷ bids)
AllClear-of_heads (x ∷ bids) (y ∷ asks) (b, _) (a, _) n =
    let c : Clear buy x.price (y ∷ asks) = (n, Clear-Behind buy x.price y.price asks n a) in
    (c, AllClear-Behind buy x.price bids (y ∷ asks) c b)

heads_of_AllClear : (bids asks : List Level) → AllClear buy bids asks → NotCrossed bids asks
heads_of_AllClear [] asks c = tt
heads_of_AllClear (x ∷ bids) [] c = tt
heads_of_AllClear (x ∷ bids) (y ∷ asks) ((c, _), _) = c

IsPair-of_buy : (b : OrderBook) → IsValid b → IsPair buy b.bids b.asks b.index
IsPair-of_buy b v = record {
  own_levels = v.bid_levels;
  opp_levels = v.ask_levels;
  own_sorted = v.bids_sorted;
  opp_sorted = v.asks_sorted;
  distinct = v.distinct;
  tracked = v.tracked;
  clear = AllClear-of_heads b.bids b.asks v.bids_sorted v.asks_sorted v.not_crossed;
}

-- The invariant of the book from either side.
pub IsPair-of :
    (s : Side) (b : OrderBook) → IsValid b → IsPair s (side_of s b) (side_of (opposite s) b) b.index
IsPair-of buy b v = IsPair-of_buy b v
IsPair-of sell b v = IsPair-flip buy b.bids b.asks b.index (IsPair-of_buy b v)

IsValid-of_buy : (b : OrderBook) → IsPair buy b.bids b.asks b.index → IsValid b
IsValid-of_buy b v = record {
  bid_levels = v.own_levels;
  ask_levels = v.opp_levels;
  bids_sorted = v.own_sorted;
  asks_sorted = v.opp_sorted;
  distinct = v.distinct;
  tracked = v.tracked;
  not_crossed = heads_of_AllClear b.bids b.asks v.clear;
}

pub IsValid-of :
    (s : Side) (b : OrderBook) → IsPair s (side_of s b) (side_of (opposite s) b) b.index → IsValid b
IsValid-of buy b v = IsValid-of_buy b v
IsValid-of sell b v = IsValid-of_buy b (IsPair-flip sell b.asks b.bids b.index v)

-- The calls of the listener change nothing of the book.
pub emit-IsValid : (e : Event) (b : OrderBook) → IsValid b → IsValid (emit e b)
unfolding emit
emit-IsValid e b v = record {
  bid_levels = v.bid_levels;
  ask_levels = v.ask_levels;
  bids_sorted = v.bids_sorted;
  asks_sorted = v.asks_sorted;
  distinct = v.distinct;
  tracked = v.tracked;
  not_crossed = v.not_crossed;
}
