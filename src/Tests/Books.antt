-- ===== src/Tests/Books.antt =====
-- The books at concrete histories: two bids and an ask rest, an order trades through, one is reduced
-- and one replaced.
use nasdaq_matching_engine.Common.{◌+◌, ◌≡◌, refl, List, [], ◌∷◌, ◌++◌, arith}
use nasdaq_matching_engine.Common.Int.{pos}
use nasdaq_matching_engine.Common.Words.{add32, sub32, add64}
use nasdaq_matching_engine.Types.{buy, sell}
use nasdaq_matching_engine.Book.{Event, execute}
use nasdaq_matching_engine.Book.Priority
use nasdaq_matching_engine.Book.Priority.{take_front}
use nasdaq_matching_engine.Book.Priority.Trading.{Trades}
use nasdaq_matching_engine.Book.Reference.Trading.{match_side-Trades}
use nasdaq_matching_engine.Book.Reference.{
  empty_book, add, cancel, replace, snapshot, snapshot_level, enter, match_side, match_levels,
  consume_level, rest, push_order, cancel_order, replace_found, replace_order, deref, remove,
  erase_from, reduce_at, would_cross,
}
use nasdaq_matching_engine.Book.Reference.Valid.{IsValid, view, flatten}
use nasdaq_matching_engine.Book.Reference.Adding.{add-refines}
use nasdaq_matching_engine.Book.Reference.Cancelling.{cancel-refines}
use nasdaq_matching_engine.Book.Reference.Replacing.{replace-refines}
use nasdaq_matching_engine.Book.Reference.History.{
  Call, step, adds, cancels, replaces, run, contract_run, run-IsValid, run-refines,
}

abbrev quiet : List Call
quiet =
    adds 1 buy (pos 1000000) 100 ∷ adds 2 buy (pos 1000000) 50 ∷ adds 3 sell (pos 1010000) 80 ∷ []

abbrev busy : List Call
busy =
    adds 1 buy (pos 1000000) 100
    ∷ adds 2 buy (pos 1000000) 50
    ∷ adds 3 sell (pos 1010000) 80
    ∷ adds 4 sell (pos 990000) 120
    ∷ cancels 2 10
    ∷ replaces 3 5 (pos 1000000) 40
    ∷ []

run-IsValid_example : IsValid (run empty_book busy)
run-IsValid_example = run-IsValid busy (omega arith)

run-refines_example : contract_run (view empty_book) busy ≡ view (run empty_book busy)
run-refines_example = run-refines busy (omega arith)

quiet-IsValid : IsValid (run empty_book quiet)
quiet-IsValid = run-IsValid quiet (omega arith)

add-refines_example :
    let b = run empty_book quiet in
    let (r, b') = add 4 sell (pos 990000) 120 b in
    Priority.add 4 sell (pos 990000) 120 (view b) ≡ (r, view b')
add-refines_example = add-refines 4 sell (pos 990000) 120 (run empty_book quiet) quiet-IsValid

cancel-refines_example :
    let b = run empty_book quiet in
    let (r, b') = cancel 1 30 b in Priority.cancel 1 30 (view b) ≡ (r, view b')
cancel-refines_example = cancel-refines 1 30 (run empty_book quiet) quiet-IsValid

replace-refines_example :
    let b = run empty_book quiet in
    let (r, b') = replace 3 5 (pos 1000000) 40 b in
    Priority.replace 3 5 (pos 1000000) 40 (view b) ≡ (r, view b')
replace-refines_example = replace-refines 3 5 (pos 1000000) 40 (run empty_book quiet) quiet-IsValid

match_side-Trades_example :
    let b = run empty_book quiet in
    let (f, b') = match_side 4 sell (pos 990000) 120 b in
    (es : List Event) × (b'.log ≡ b.log ++ es)
    × Trades 4 sell (pos 990000) (flatten b.bids) 120 b.next_match_id (record {
      events = es;
      orders = flatten b'.bids;
      qty = f.qty;
      next_match_id = b'.next_match_id;
    })
    × (f.qty + f.filled ≡ 120)
    × (b'.asks ≡ b.asks)
match_side-Trades_example =
    match_side-Trades 4 sell (pos 990000) 120 (run empty_book quiet) quiet-IsValid (omega arith)

-- The ask for 120 takes order 1 and a part of order 2, which a cancel lowers to 10; the replaced ask
-- takes those 10 and rests 30.
busy_runs : snapshot (run empty_book busy) ≡ record {
  bids = [];
  asks = record { price = pos 1000000; orders = record { id = 5; qty = 30 } ∷ [] } ∷ [];
}
unfolding snapshot run step add enter match_side match_levels consume_level execute rest push_order
    cancel cancel_order replace replace_found replace_order deref remove erase_from reduce_at
    would_cross add32 sub32 add64 snapshot_level
busy_runs = refl
