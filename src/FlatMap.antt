-- ===== src/FlatMap.antt =====
-- src/book/flat_map.hpp: a hash map with linear probing and backward-shift deletion, at its one
-- instance, from order ids to uint32_t. The table is a list of slots. Its size is a power of two, so
-- `& mask()` is `%` by the size. The loops that end at an unused slot take fuel, one round for each
-- slot.
pub mod Cyclic
pub mod Probing
pub mod Finding
pub mod Inserting
pub mod Growing
pub mod Erasing
pub mod Operations
pub mod Capacity
pub mod Contract
use mathlib.Core.Option
use nasdaq_matching_engine.Common.{
  ℕ, zero, suc, ◌+◌, ◌-◌, ◌*◌, ◌/◌, ◌%◌, ◌^◌, List, [], ◌∷◌, Option, none, some, Bool, true, false,
  ◌==◌, ltb, leb, ◌&&◌, ◌||◌, not, if◌then◌else◌, length, get_or, set, replicate,
}

pub record Slot : Type 0 where
  pub key : ℕ
  pub val : ℕ
  pub used : Bool

-- `Slot{}`
abbrev pub no_slot : Slot
no_slot = record { key = 0; val = 0; used = false }

pub record FlatMap : Type 0 where
  pub slots : List Slot
  pub size : ℕ

abbrev pub slot_at : List Slot → ℕ → Slot
slot_at slots i = get_or slots i no_slot

unfoldable pub next_slot : ℕ → ℕ → ℕ
next_slot cap i = (i + 1) % cap

unfoldable pub ideal : ℕ → ℕ → ℕ
ideal cap key = key * 11400714819323198485 % 2 ^ 64 / 2 ^ 32 % cap

unfoldable pub find_from : ℕ → List Slot → ℕ → ℕ → Option ℕ
find_from zero slots key i = none
find_from (suc n) slots key i =
    let rest = find_from n slots key (next_slot (length slots) i) in
    let s = slot_at slots i in if not s.used then none else if s.key == key then some i else rest

unfoldable pub find_slot : List Slot → ℕ → Option ℕ
find_slot slots key = find_from (length slots) slots key (ideal (length slots) key)

unfoldable pub val_at : List Slot → Option ℕ → Option ℕ
val_at slots none = none
val_at slots (some i) = some (slot_at slots i).val

unfoldable pub find : ℕ → FlatMap → Option ℕ
find key m = val_at m.slots (find_slot m.slots key)

unfoldable pub contains : ℕ → FlatMap → Bool
contains key m = elim (find_slot m.slots key) [ none ↦ false | some i ↦ true ]

-- The loop of `insert`: the first unused slot from `i` on, or the one that has the key.
unfoldable pub insert_from : ℕ → ℕ → ℕ → ℕ → FlatMap → FlatMap
insert_from zero key val i m = m
insert_from (suc n) key val i m =
    let rest = insert_from n key val (next_slot (length m.slots) i) m in
    let s = slot_at m.slots i in
    let filled = set m.slots i (record { key = key; val = val; used = true }) in
    if not s.used
    then record { slots = filled; size = m.size + 1 }
    else if s.key == key
    then record { slots = set m.slots i (record s { val = val }); size = m.size }
    else rest

unfoldable pub insert_plain : ℕ → ℕ → FlatMap → FlatMap
insert_plain key val m = insert_from (length m.slots) key val (ideal (length m.slots) key) m

unfoldable pub is_loaded : FlatMap → Bool
is_loaded m = ltb (length m.slots * 7) ((m.size + 1) * 10)

-- The loop of `grow` over the old slots, by `put`, the `insert` that it calls.
unfoldable pub insert_all : (ℕ → ℕ → FlatMap → FlatMap) → List Slot → FlatMap → FlatMap
insert_all put [] m = m
insert_all put (s ∷ ss) m =
    if s.used then insert_all put ss (put s.key s.val m) else insert_all put ss m

unfoldable pub grow : (ℕ → ℕ → FlatMap → FlatMap) → FlatMap → FlatMap
grow put m =
    insert_all put m.slots (record { slots = replicate (length m.slots * 2) no_slot; size = 0 })

-- `insert` with calls of `grow` up to a depth.
unfoldable pub insert_within : ℕ → ℕ → ℕ → FlatMap → FlatMap
insert_within zero key val m = insert_plain key val m
insert_within (suc depth) key val m =
    let grown = grow (insert_within depth) m in
    insert_plain key val (if is_loaded m then grown else m)

-- A call of `insert`, whose `grow` calls `insert` again.
unfoldable pub insert : ℕ → ℕ → FlatMap → FlatMap
insert key val m = insert_within 2 key val m

-- Whether the home position lies outside the cyclic range from behind the hole up to `j`.
unfoldable pub movable : ℕ → ℕ → ℕ → Bool
movable hole j home =
    if leb hole j then leb home hole || ltb j home else leb home hole && ltb j home

-- The loop of `erase`, behind slot `j`: the table and the last hole.
unfoldable pub shift_back : ℕ → ℕ → ℕ → List Slot → List Slot × ℕ
shift_back zero hole j slots = (slots, hole)
shift_back (suc n) hole j slots =
    let k = next_slot (length slots) j in
    let s = slot_at slots k in
    let moved = shift_back n k k (set slots hole s) in
    let stays = shift_back n hole k slots in
    if not s.used
    then (slots, hole)
    else if movable hole k (ideal (length slots) s.key)
    then moved
    else stays

unfoldable pub erase_at : ℕ → FlatMap → FlatMap
erase_at i m =
    let (slots, hole) = shift_back (length m.slots) i i m.slots in
    record {
      slots = set slots hole (record (slot_at slots hole) { used = false });
      size = m.size - 1;
    }

unfoldable pub erase_found : Option ℕ → FlatMap → Bool × FlatMap
erase_found none m = (false, m)
erase_found (some i) m = (true, erase_at i m)

unfoldable pub erase : ℕ → FlatMap → Bool × FlatMap
erase key m = erase_found (find_slot m.slots key) m

-- The capacity of the constructor: 16, doubled while the test asks for more, in at most `n` rounds.
-- The numbers are of `size_t`, whose 64 bits `cap * 7`, `expected * 10` and the doubling are cut to.
unfoldable pub capacity_from : ℕ → ℕ → ℕ → Option ℕ
capacity_from zero expected cap = none
capacity_from (suc n) expected cap =
    let more = capacity_from n expected (cap * 2 % 2 ^ 64) in
    if ltb (cap * 7 % 2 ^ 64) (expected * 10 % 2 ^ 64) then more else some cap

unfoldable pub map_of_size : ℕ → FlatMap
map_of_size cap = record { slots = replicate cap no_slot; size = 0 }

-- After 60 doublings the capacity is 0 and stays so: `none` is a loop that does not end.
unfoldable pub new_map : ℕ → Option FlatMap
new_map expected = Option.map map_of_size (capacity_from 60 expected 16)
