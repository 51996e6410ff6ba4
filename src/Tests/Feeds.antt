-- ===== src/Tests/Feeds.antt =====
-- The packetizer, the parser and the gap detector at concrete streams.
use nasdaq_matching_engine.Common.{ℕ, ◌≡◌, refl, true, false, List, [], ◌∷◌, arith, map, some, All}
use nasdaq_matching_engine.Mold.{start, flush, parse, on_packet, new_detector}
use nasdaq_matching_engine.Common.Words.{add64}
use nasdaq_matching_engine.Mold.Format.{Message, packet, parse-packet}
use nasdaq_matching_engine.Mold.Packing.{join, FitsMtu}
use nasdaq_matching_engine.Mold.Delivery.{add_all, datagrams, packetizer_delivers}
use nasdaq_matching_engine.Mold.Gaps.{on_packet_lem, feed, Packet, Carries, no_gap_means_complete}

abbrev session : List ℕ
session = 83 ∷ 69 ∷ 83 ∷ 83 ∷ 48 ∷ 49 ∷ 32 ∷ 32 ∷ 32 ∷ 32 ∷ []

abbrev three : List Message
three = (1 ∷ 2 ∷ []) ∷ [] ∷ (3 ∷ 4 ∷ 5 ∷ []) ∷ []

parse-packet_example :
    parse (packet session 7 three)
    ≡ some (record { session = session; seq = 7; end_of_session = false; messages = three })
parse-packet_example = parse-packet session 7 three refl (omega arith) (omega arith) (omega arith)

packetizer_delivers_example :
    (chunks : List (List Message)) × (map parse (flush (add_all three (start session 27))).ready
      ≡ map some (datagrams session 1 chunks))
    × (join chunks ≡ three)
    × All (FitsMtu 27) chunks
packetizer_delivers_example =
    packetizer_delivers session 27 refl (omega arith) three (omega arith) (omega arith)

on_packet_lem_example :
    let (gap, d') = on_packet 5 2 new_detector in
    (gap ≡ true) × (d'.expected ≡ 7) × (d'.had_gap ≡ true)
unfolding on_packet add64
on_packet_lem_example = on_packet_lem 5 2 new_detector (omega arith)

abbrev received : List Packet
received = (1, 2) ∷ (1, 2) ∷ (3, 0) ∷ (3, 4) ∷ []

no_gap_means_complete_example : Carries received 5
no_gap_means_complete_example =
    no_gap_means_complete received 5 (omega arith) (unfold feed on_packet add64 in refl)
      (omega arith) (unfold feed on_packet add64 in omega arith)
