-- ===== src/Tests/Plumbing.antt =====
-- The ring, the queue, the histogram and the capture file at concrete inputs.
use nasdaq_matching_engine.Common.{
  ℕ, ◌≡◌, ◌≤◌, ◌<◌, ◌-◌, ◌*◌, refl, List, [], ◌∷◌, ◌++◌, some, arith, take,
}
use nasdaq_matching_engine.Ring.{
  Turn, producer, consumer, run, new_ring, step, pop_idle, push_step, pop_step,
}
use nasdaq_matching_engine.Ring.Held.{count, held}
use nasdaq_matching_engine.Ring.Safety.{schedule-fifo, run-IsValid, new_ring-IsValid}
use nasdaq_matching_engine.Ring.Progress.{pop_call, try_pop_ends}
use nasdaq_matching_engine.FlatMap.{next_slot}
use nasdaq_matching_engine.Queue
use nasdaq_matching_engine.Ring
use nasdaq_matching_engine.Queue.{
  QueueCall, push_call, drain_call, wait_call, stop_call, new_history, joined, calls-in_order,
}
use nasdaq_matching_engine.Histogram.{slot, upper_bound}
use nasdaq_matching_engine.Histogram.Buckets.{slot-lt, upper_bound-slot}
use nasdaq_matching_engine.Histogram.Counting.{Counts, record_all, record_all-Counts}
use nasdaq_matching_engine.Capture.{
  CaptureRecord, new_capture, write_record, write_records, read_capture,
}
use nasdaq_matching_engine.Endian.{put_be16, put_be64}
use nasdaq_matching_engine.Capture.Recording.{read_capture-write_records}

-- Two pushes, the consumer in between.
abbrev turns : List Turn
turns =
    producer 5
    ∷ producer 5
    ∷ consumer
    ∷ producer 5
    ∷ producer 6
    ∷ consumer
    ∷ producer 6
    ∷ consumer
    ∷ consumer
    ∷ []

schedule-fifo_example :
    ((run turns (new_ring 4)).pushed
      ≡ (run turns (new_ring 4)).popped ++ held (run turns (new_ring 4)))
    × (count (run turns (new_ring 4)) < 4)
schedule-fifo_example = schedule-fifo 4 (omega arith) turns

abbrev one_pushed : List Turn
one_pushed = producer 5 ∷ producer 5 ∷ producer 5 ∷ []

try_pop_ends_example :
    let r = run one_pushed (new_ring 4) in
    ((pop_call (7 ∷ []) (7 ∷ 7 ∷ []) r).popped ≡ r.popped ++ Ring.slot r.buf r.head ∷ [])
    × ((pop_call (7 ∷ []) (7 ∷ 7 ∷ []) r).pop_phase ≡ pop_idle)
unfolding run new_ring step push_step next_slot
try_pop_ends_example =
    try_pop_ends 4 (run one_pushed (new_ring 4))
      (run-IsValid 4 one_pushed (new_ring 4) (new_ring-IsValid 4 (omega arith))) refl (omega arith)
      (7 ∷ []) (7 ∷ 7 ∷ [])

abbrev queue_calls : List (QueueCall ℕ)
queue_calls =
    push_call 1 ∷ push_call 2 ∷ wait_call ∷ wait_call ∷ push_call 3 ∷ stop_call ∷ drain_call ∷ []

calls-in_order_example :
    (Queue.run queue_calls new_history).pushed
    ≡ joined (Queue.run queue_calls new_history).taken
      ++ (Queue.run queue_calls new_history).queue.items
calls-in_order_example = calls-in_order queue_calls

slot-lt_example : slot 18446744073709551615 < 1024
slot-lt_example = slot-lt 18446744073709551615 (omega arith)

upper_bound-slot_example :
    (1000 < upper_bound (slot 1000)) × ((upper_bound (slot 1000) - 1000) * 16 ≤ 1000)
upper_bound-slot_example = upper_bound-slot 1000 (omega arith) (omega arith)

record_all-Counts_example : Counts (3 ∷ 900 ∷ 17 ∷ []) (record_all (3 ∷ 900 ∷ 17 ∷ []))
record_all-Counts_example =
    record_all-Counts (3 ∷ 900 ∷ 17 ∷ []) (omega arith, (omega arith, (omega arith, tt)))
      (omega arith)

abbrev datagram : CaptureRecord
datagram = record { ts_ns = 34200000000000; bytes = 1 ∷ 2 ∷ 3 ∷ [] }

read_capture-write_records_example :
    read_capture 3
      (write_records (datagram ∷ datagram ∷ []) new_capture ++ take 12 (write_record datagram []))
    ≡ some (datagram ∷ datagram ∷ [])
unfolding write_record put_be64 put_be16
read_capture-write_records_example =
    read_capture-write_records (datagram ∷ datagram ∷ []) datagram 12
      (
        record { time = omega arith; size = omega arith },
        (record { time = omega arith; size = omega arith }, tt),
      )
      (record { time = omega arith; size = omega arith }) (omega arith)
