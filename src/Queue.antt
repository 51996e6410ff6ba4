-- ===== src/Queue.antt =====
-- src/common/queue.hpp: the queue of several producers and one consumer. Each call holds the mutex from
-- its first access of the items to its last, so calls of all threads come one after the other; the wait
-- of the condition variable is a guard. `taken` records the batches that the consumer got and `pushed`
-- the elements of all pushes. The time-out, the wake-ups and the notify hook are the platform's.
use mathlib.Core.List.{append_assoc, append-nil}
use nasdaq_matching_engine.Common.{
  Bool, true, false, List, [], ◌∷◌, ◌++◌, not, ◌||◌, if◌then◌else◌, ◌≡◌, refl, sym, ap, ◌∙◌, Option,
  none, some, Bool-cases, inl, inr,
}

pub record MpscQueue (A : Type 0) : Type 0 where
  pub items : List A
  pub stopped : Bool

-- A queue and what its threads did with it.
pub record History (A : Type 0) : Type 0 where
  pub queue : MpscQueue A
  pub pushed : List A
  pub taken : List (List A)

module _ {A : Type 0} where
  abbrev pub is_empty : List A → Bool
  is_empty [] = true
  is_empty (x ∷ xs) = false

  unfoldable pub push : A → MpscQueue A → MpscQueue A
  push v q = record q { items = q.items ++ v ∷ [] }

  -- `std::exchange(items_, {})`
  unfoldable pub drain : MpscQueue A → List A × MpscQueue A
  drain q = (q.items, record q { items = [] })

  -- `none` is a call that goes on waiting.
  unfoldable pub wait_drain : MpscQueue A → Option (List A × MpscQueue A)
  wait_drain q = if not (is_empty q.items) || q.stopped then some (drain q) else none

  unfoldable pub stop : MpscQueue A → MpscQueue A
  stop q = record q { stopped = true }

  unfoldable pub joined : List (List A) → List A
  joined [] = []
  joined (b ∷ bs) = b ++ joined bs

  joined-append : (bs : List (List A)) (b : List A) → joined (bs ++ b ∷ []) ≡ joined bs ++ b
  unfolding joined
  joined-append [] b = append-nil b
  joined-append (c ∷ cs) b =
      ap (λ l. c ++ l) (joined-append cs b) ∙ sym (append_assoc c (joined cs) b)

-- One call of one of the threads; `drain_call` is also a `wait_drain_for` that times out.
pub data QueueCall (A : Type 0) : Type 0 where
  push_call : A → QueueCall A
  drain_call : QueueCall A
  wait_call : QueueCall A
  stop_call : QueueCall A

module _ {A : Type 0} where
  -- The consumer got a batch.
  unfoldable pub took : List A × MpscQueue A → History A → History A
  took (batch, q) h = record h { queue = q; taken = h.taken ++ batch ∷ [] }

  unfoldable pub call : QueueCall A → History A → History A
  call (push_call v) h = record h { queue = push v h.queue; pushed = h.pushed ++ v ∷ [] }
  call drain_call h = took (drain h.queue) h
  call wait_call h = elim (wait_drain h.queue) [ none ↦ h | some r ↦ took r h ]
  call stop_call h = record h { queue = stop h.queue }

  unfoldable pub run : List (QueueCall A) → History A → History A
  run [] h = h
  run (c ∷ cs) h = run cs (call c h)

  abbrev pub new_history : History A
  new_history = record { queue = record { items = []; stopped = false }; pushed = []; taken = [] }

  -- Nothing that was pushed is lost, doubled or reordered.
  abbrev pub InOrder : History A → Type 0
  InOrder h = h.pushed ≡ joined h.taken ++ h.queue.items

  took-InOrder : (h : History A) → InOrder h → InOrder (took (drain h.queue) h)
  unfolding took drain
  took-InOrder h i =
      i
      ∙ sym (joined-append h.taken h.queue.items)
      ∙ sym (append-nil (joined (h.taken ++ h.queue.items ∷ [])))

  call-InOrder : (c : QueueCall A) (h : History A) → InOrder h → InOrder (call c h)
  unfolding call push stop wait_drain
  call-InOrder (push_call v) h i =
      ap (λ l. l ++ v ∷ []) i ∙ append_assoc (joined h.taken) h.queue.items (v ∷ [])
  call-InOrder drain_call h i = took-InOrder h i
  call-InOrder wait_call h i = elim (Bool-cases (not (is_empty h.queue.items) || h.queue.stopped)) [
    | inl e ↦ rw (call, e) (took-InOrder h i)
    | inr e ↦ rw (call, e) i
  ]
  call-InOrder stop_call h i = i

  run-InOrder : (cs : List (QueueCall A)) (h : History A) → InOrder h → InOrder (run cs h)
  unfolding run
  run-InOrder [] h i = i
  run-InOrder (c ∷ cs) h i = run-InOrder cs (call c h) (call-InOrder c h i)

  -- In any order of the calls of all threads on a new queue, the elements pushed are those of the
  -- consumer's batches, one batch after the other, and those still queued, in the order of the pushes.
  pub calls-in_order :
      (cs : List (QueueCall A))
      → (run cs new_history).pushed
        ≡ joined (run cs new_history).taken ++ (run cs new_history).queue.items
  unfolding joined
  calls-in_order cs = run-InOrder cs new_history refl
