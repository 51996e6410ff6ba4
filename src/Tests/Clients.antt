-- ===== src/Tests/Clients.antt =====
-- The client's book at a concrete history.
use nasdaq_matching_engine.Common.{ℕ, ◌≡◌, List, [], ◌∷◌, arith}
use nasdaq_matching_engine.Common.Int.{pos}
use nasdaq_matching_engine.Types.{buy, sell}
use nasdaq_matching_engine.Book.Reference
use nasdaq_matching_engine.Book.Reference.{empty_book}
use nasdaq_matching_engine.Book.Reference.History.{Call, adds, cancels, replaces, run}
use nasdaq_matching_engine.ItchBook.{new_builder, snapshot}
use nasdaq_matching_engine.ItchBook.Replay.{Stamp, tell_all}
use nasdaq_matching_engine.ItchBook.Integrity.{client-snapshot}

abbrev aapl : List ℕ
aapl = b'A' ∷ b'A' ∷ b'P' ∷ b'L' ∷ b' ' ∷ b' ' ∷ b' ' ∷ b' ' ∷ []

abbrev opening : Stamp
opening e = (34200000000000, 1)

abbrev day : List Call
day =
    adds 1 buy (pos 1000000) 100
    ∷ adds 2 buy (pos 1000000) 50
    ∷ adds 3 sell (pos 1010000) 80
    ∷ adds 4 sell (pos 990000) 120
    ∷ cancels 2 10
    ∷ replaces 3 5 (pos 1000000) 60
    ∷ []

client-snapshot_example :
    snapshot aapl (tell_all opening aapl (run empty_book day).log new_builder)
    ≡ Reference.snapshot (run empty_book day)
client-snapshot_example = client-snapshot opening aapl day (omega arith)
