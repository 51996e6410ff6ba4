-- ===== src/Book/Priority/Filling.antt =====
-- What a scan of `Book.Priority` does with the quantity, and where it stops.
use nasdaq_matching_engine.Common.{◌+◌, ◌<◌, ◌≡◌, refl, List, [], ◌∷◌, arith}
use nasdaq_matching_engine.Common.Words.{word32, add32}
use nasdaq_matching_engine.Types.{Price, OrderId, Side}
use nasdaq_matching_engine.Book.{Order, Fill, execute}
use nasdaq_matching_engine.Book.Priority.{take_front}

abbrev pub Conserves : Fill → Fill → Type 0
Conserves f g = g.qty + g.filled ≡ f.qty + f.filled

execute-Conserves :
    (id : OrderId) (s : Side) (o : Order) (f : Fill)
    → f.qty + f.filled < word32
    → Conserves f (execute id s o f)
unfolding execute add32
execute-Conserves id s o f h = ground arith

pub take_front-Conserves :
    (id : OrderId) (s : Side) (limit : Price) (os : List Order) (f : Fill)
    → f.qty + f.filled < word32
    → Conserves f (take_front id s limit os f).1
unfolding take_front
take_front-Conserves id s limit [] f h = refl
take_front-Conserves id s limit (o ∷ os) f h =
    ground
      (arith, execute-Conserves id s o f h, take_front-Conserves id s limit os (execute id s o f))
