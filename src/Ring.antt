-- ===== src/Ring.antt =====
-- src/common/spsc_ring.hpp: the ring of one producer and one consumer, for elements that are numbers.
-- Each thread runs its call in steps, one for each access to what the other thread also uses, and a
-- schedule is any interleaving of them. The release and acquire orders make a store of `tail_` or
-- `head_` visible together with what its thread did before, so the steps act on one state. `pushed`
-- and `popped` record the finished calls. N is a power of two, so `& (N - 1)` is `%` by N.
pub mod Held
pub mod Safety
pub mod Progress
use nasdaq_matching_engine.Common.{
  ℕ, ◌+◌, Bool, true, false, List, [], ◌∷◌, ◌++◌, ◌==◌, if◌then◌else◌, length, get_or, set,
  replicate,
}
use nasdaq_matching_engine.FlatMap.{next_slot}

-- Where `try_push` stands: before the test, after it, after the write to the slot.
pub data PushPhase : Type 0 where
  push_idle : PushPhase
  push_tested : ℕ → PushPhase
  push_wrote : ℕ → PushPhase

-- Where `try_pop` stands: before the test, after it, after the read of the slot.
pub data PopPhase : Type 0 where
  pop_idle : PopPhase
  pop_tested : PopPhase
  pop_read : ℕ → PopPhase

pub record Ring : Type 0 where
  pub head : ℕ
  pub tail : ℕ
  pub buf : List ℕ
  pub push_phase : PushPhase
  pub pop_phase : PopPhase
  pub pushed : List ℕ
  pub popped : List ℕ

abbrev pub slot : List ℕ → ℕ → ℕ
slot buf i = get_or buf i 0

-- The next step of the producer's call; a call that starts pushes `v`.
unfoldable pub push_step : ℕ → PushPhase → Ring → Ring
push_step v push_idle r =
    if next_slot (length r.buf) r.tail == r.head then r else record r { push_phase = push_tested v }
push_step v (push_tested w) r = record r { buf = set r.buf r.tail w; push_phase = push_wrote w }
push_step v (push_wrote w) r = record r {
  tail = next_slot (length r.buf) r.tail;
  push_phase = push_idle;
  pushed = r.pushed ++ w ∷ [];
}

-- The next step of the consumer's call.
unfoldable pub pop_step : PopPhase → Ring → Ring
pop_step pop_idle r = if r.head == r.tail then r else record r { pop_phase = pop_tested }
pop_step pop_tested r = record r { pop_phase = pop_read (slot r.buf r.head) }
pop_step (pop_read w) r = record r {
  head = next_slot (length r.buf) r.head;
  pop_phase = pop_idle;
  popped = r.popped ++ w ∷ [];
}

pub data Turn : Type 0 where
  producer : ℕ → Turn
  consumer : Turn

unfoldable pub step : Turn → Ring → Ring
step (producer v) r = push_step v r.push_phase r
step consumer r = pop_step r.pop_phase r

unfoldable pub run : List Turn → Ring → Ring
run [] r = r
run (t ∷ ts) r = run ts (step t r)

unfoldable pub new_ring : ℕ → Ring
new_ring n = record {
  head = 0;
  tail = 0;
  buf = replicate n 0;
  push_phase = push_idle;
  pop_phase = pop_idle;
  pushed = [];
  popped = [];
}
