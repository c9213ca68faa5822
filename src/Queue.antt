-- ===== src/Queue.antt =====
-- system/queue.py: `TaskQueue`, over the standard `queue.Queue`, whose FIFO list it keeps. A call
-- that waits acts on the queue that it finds when its wait ends, so that the wait itself is the
-- steps that other threads take before it. Tasks are references to the task heap.
pub mod Fifo
use latency_aware_inference.Common.{
  ℕ, zero, suc, ◌+◌, Bool, ◌&&◌, Option, none, some, List, [], ◌∷◌, ◌++◌, length, ltb, leb,
  is_empty, if◌then◌else◌,
}

pub record TaskQueue : Type 0 where
  pub maxsize : ℕ
  pub items : List ℕ
  pub total_enqueued : ℕ
  pub total_dequeued : ℕ

unfoldable pub new_queue : ℕ → TaskQueue
new_queue size = record { maxsize = size; items = []; total_enqueued = 0; total_dequeued = 0 }

-- A `queue.Queue` whose `maxsize` is 0 has no bound.
abbrev pub is_full : TaskQueue → Bool
is_full q = ltb 0 q.maxsize && leb q.maxsize (length q.items)

-- `none` is the exception `Full`.
unfoldable pub put : TaskQueue → ℕ → Option TaskQueue
put q task =
    if is_full q
    then none
    else some (record q { items = q.items ++ task ∷ []; total_enqueued = q.total_enqueued + 1 })

-- The queue after its first task was taken.
abbrev pub taken : TaskQueue → List ℕ → TaskQueue
taken q rest = record q { items = rest; total_dequeued = q.total_dequeued + 1 }

-- The first component is what `get` returns: `none` on a timeout.
unfoldable pub get : TaskQueue → Option ℕ × TaskQueue
get q = elim q.items [ [] ↦ (none, q) | task ∷ rest ↦ (some task, taken q rest) ]

-- The loop of `drain`, over the queue's list: at most `n` rounds of `get_nowait`.
abbrev pub take_now : ℕ → List ℕ → List ℕ × List ℕ
take_now zero xs = ([], xs)
take_now (suc n) [] = ([], [])
take_now (suc n) (x ∷ xs) = let (got, left) = take_now n xs in (x ∷ got, left)

unfoldable pub drain : ℕ → TaskQueue → List ℕ × TaskQueue
drain max_items q =
    let (got, left) = take_now max_items q.items in
    (got, record q { items = left; total_dequeued = q.total_dequeued + length got })

unfoldable pub qsize : TaskQueue → ℕ
qsize q = length q.items

unfoldable pub empty : TaskQueue → Bool
empty q = is_empty q.items

pub record Stats : Type 0 where
  pub queue_size : ℕ
  pub enqueued : ℕ
  pub dequeued : ℕ

unfoldable pub stats : TaskQueue → Stats
unfolding qsize
stats q = record { queue_size = qsize q; enqueued = q.total_enqueued; dequeued = q.total_dequeued }
