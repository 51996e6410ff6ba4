-- ===== src/Book/Reference/History.antt =====
-- Histories of calls of the book of src/book/order_book.cpp, from the empty book on.
use nasdaq_matching_engine.Common.{◌<◌, ◌≡◌, refl, ap, ◌∙◌, List, [], ◌∷◌, arith, All}
use nasdaq_matching_engine.Common.Words.{word32}
use nasdaq_matching_engine.Types.{Price, Qty, OrderId, Side}
use nasdaq_matching_engine.Book.Priority
use nasdaq_matching_engine.Book.Priority.{locate}
use nasdaq_matching_engine.Book.Priority.Orders.{count}
use nasdaq_matching_engine.Book.Reference.{OrderBook, add, cancel, replace, empty_book}
use nasdaq_matching_engine.Book.Reference.Adding.{add-refines, add-IsValid}
use nasdaq_matching_engine.Book.Reference.Cancelling.{cancel-refines, cancel-IsValid}
use nasdaq_matching_engine.Book.Reference.Replacing.{replace-refines, replace-IsValid}
use nasdaq_matching_engine.Book.Reference.Valid.{IsValid, view}

pub data Call : Type 0 where
  adds : OrderId → Side → Price → Qty → Call
  cancels : OrderId → Qty → Call
  replaces : OrderId → OrderId → Price → Qty → Call

unfoldable pub step : OrderBook → Call → OrderBook
step b (adds id s price qty) = (add id s price qty b).1
step b (cancels id keep) = (cancel id keep b).1
step b (replaces old_id new_id price qty) = (replace old_id new_id price qty b).1

unfoldable pub run : OrderBook → List Call → OrderBook
run b [] = b
run b (c ∷ cs) = run (step b c) cs

unfoldable pub contract_step : Priority.Book → Call → Priority.Book
contract_step b (adds id s price qty) = (Priority.add id s price qty b).1
contract_step b (cancels id keep) = (Priority.cancel id keep b).1
contract_step b (replaces old_id new_id price qty) = (Priority.replace old_id new_id price qty b).1

unfoldable pub contract_run : Priority.Book → List Call → Priority.Book
contract_run b [] = b
contract_run b (c ∷ cs) = contract_run (contract_step b c) cs

-- A `Qty` argument is a uint32_t.
abbrev pub IsCall : Call → Type 0
IsCall (adds id s price qty) = qty < word32
IsCall (cancels id keep) = keep < word32
IsCall (replaces old_id new_id price qty) = qty < word32

pub step-IsValid : (b : OrderBook) (c : Call) → IsCall c → IsValid b → IsValid (step b c)
unfolding step
step-IsValid b (adds id s price qty) h v = add-IsValid id s price qty b v h
step-IsValid b (cancels id keep) h v = cancel-IsValid id keep b v
step-IsValid b (replaces old_id new_id price qty) h v =
    replace-IsValid old_id new_id price qty b v h

step-refines : (b : OrderBook) (c : Call) → IsValid b → contract_step (view b) c ≡ view (step b c)
unfolding step contract_step
step-refines b (adds id s price qty) v = ap (λ r. r.1) (add-refines id s price qty b v)
step-refines b (cancels id keep) v = ap (λ r. r.1) (cancel-refines id keep b v)
step-refines b (replaces old_id new_id price qty) v =
    ap (λ r. r.1) (replace-refines old_id new_id price qty b v)

run-IsValid_from : (b : OrderBook) (cs : List Call) → All IsCall cs → IsValid b → IsValid (run b cs)
unfolding run
run-IsValid_from b [] h v = v
run-IsValid_from b (c ∷ cs) (h, hs) v = run-IsValid_from (step b c) cs hs (step-IsValid b c h v)

run-refines_from :
    (b : OrderBook) (cs : List Call)
    → All IsCall cs
    → IsValid b
    → contract_run (view b) cs ≡ view (run b cs)
unfolding run contract_run
run-refines_from b [] h v = refl
run-refines_from b (c ∷ cs) (h, hs) v =
    ap (λ r. contract_run r cs) (step-refines b c v)
    ∙ run-refines_from (step b c) cs hs (step-IsValid b c h v)

pub empty_book-IsValid : IsValid empty_book
unfolding count locate
empty_book-IsValid = record {
  bid_levels = tt;
  ask_levels = tt;
  bids_sorted = tt;
  asks_sorted = tt;
  distinct = λ k. omega arith;
  tracked = λ k. refl;
  not_crossed = tt;
}

-- After any history of calls with uint32_t quantities the book passes `check_invariants`.
pub run-IsValid : (cs : List Call) → All IsCall cs → IsValid (run empty_book cs)
run-IsValid cs h = run-IsValid_from empty_book cs h empty_book-IsValid

-- After any history of calls with uint32_t quantities the resting orders, in priority order, the
-- match numbers and all events are those of the contract.
pub run-refines :
    (cs : List Call) → All IsCall cs → contract_run (view empty_book) cs ≡ view (run empty_book cs)
run-refines cs h = run-refines_from empty_book cs h empty_book-IsValid
