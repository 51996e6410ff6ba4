-- ===== src/Tests/Tables.antt =====
-- The flat map at concrete calls: keys that share a home, and a shift after an erase.
use nasdaq_matching_engine.Common.{
  ◌≡◌, ◌+◌, ◌*◌, ◌≤◌, arith, refl, List, [], ◌∷◌, some, length, if◌then◌else◌,
}
use nasdaq_matching_engine.FlatMap.{
  FlatMap, map_of_size, find, insert, erase, new_map, find_slot, val_at, find_from, erase_found,
  insert_within, insert_plain, insert_from, is_loaded, capacity_from, ideal, erase_at, shift_back,
  next_slot,
}
use nasdaq_matching_engine.FlatMap.Capacity.{new_map-load}
use nasdaq_matching_engine.FlatMap.Operations.{IsValid}
use nasdaq_matching_engine.FlatMap.Contract.{
  MapCall, insert_call, erase_call, call, run, lookup_after, calls-IsValid, calls-find,
  erase_result, is_found,
}

abbrev calls : List MapCall
calls =
    insert_call 5 50 ∷ insert_call 9 90 ∷ insert_call 5 51 ∷ insert_call 21 7 ∷ erase_call 9 ∷ []

-- The map that the constructor makes for 4 entries.
abbrev small_map : FlatMap
small_map = map_of_size 16

new_map_small : new_map 4 ≡ some small_map
unfolding new_map capacity_from map_of_size
new_map_small = refl

calls-IsValid_example : IsValid (run calls small_map)
calls-IsValid_example = calls-IsValid 4 small_map new_map_small calls

calls-find_example : find 5 (run calls small_map) ≡ some 51
unfolding lookup_after
calls-find_example = calls-find 4 small_map new_map_small calls 5

find-run : find 21 (run calls small_map) ≡ some 7
unfolding run call insert erase find map_of_size val_at find_slot find_from erase_found
    insert_within insert_plain insert_from is_loaded ideal erase_at shift_back next_slot
find-run = refl

new_map-load_example : (m : FlatMap) × (new_map 40 ≡ some m) × (40 * 10 ≤ length m.slots * 7)
new_map-load_example = new_map-load 40 (omega arith)

erase_result_example :
    let m = run calls small_map in
    ((erase 9 m).0 ≡ is_found (find 9 m))
    × ((erase 9 m).1.size + (if is_found (find 9 m) then 1 else 0) ≡ m.size)
erase_result_example =
    erase_result (run calls small_map) (calls-IsValid 4 small_map new_map_small calls) 9
