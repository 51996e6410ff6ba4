-- ===== src/Engine/Contract.antt =====
-- The price-time priority contract of the books as operations for the engine of
-- src/engine/engine.cpp. `execute_ioc` is the crossing of `add` alone, and `matchable` the
-- quantity that would execute, in the 32 bits of a `Qty`.
use nasdaq_matching_engine.Common.{◌%◌, ◌^◌, List, []}
use nasdaq_matching_engine.Book.{Event, opposite}
use nasdaq_matching_engine.Book.Priority
use nasdaq_matching_engine.Book.Priority.{Book}
use nasdaq_matching_engine.Engine.{BookOps}

-- The events that were logged since the log was last taken.
abbrev pub take_log : Book → List Event × Book
take_log b = (b.log, record b { log = [] })

abbrev pub priority_ops : BookOps Book
priority_ops = record {
  empty = record { bids = []; asks = []; next_match_id = 1; log = [] };
  add = λ id side price q b. take_log (Priority.add id side price q b).1;
  cancel = λ id q b. take_log (Priority.cancel id q b).1;
  replace = λ old_id new_id price q b. take_log (Priority.replace old_id new_id price q b).1;
  matchable =
      λ side limit b. Priority.available side limit (Priority.side_of (opposite side) b) % 2 ^ 32;
  execute_ioc = λ id side limit q b.
      let (f, b') = Priority.cross id side limit q b in (f.filled, take_log b');
}
