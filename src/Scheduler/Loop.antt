-- ===== src/Scheduler/Loop.antt =====
-- system/scheduler.py: the loop of `Scheduler`, with the strategy that each of its turns reads from
-- the configuration. The latency-aware strategy keeps its buffer between the turns.
pub mod Turns
use latency_aware_inference.Common.{
  ℕ, suc, Bool, false, ◌||◌, Option, none, some, String, str_eq, List, [], ◌∷◌, ◌++◌, if◌then◌else◌,
}
use latency_aware_inference.Task.Heap.{Heap}
use latency_aware_inference.Queue.{TaskQueue}
use latency_aware_inference.Scheduler.{
  Rounds, Readings, arrive, fifo_next_batch, batching_next_batch, latency_next_batch,
}

-- The strategies' state, the queue, and the tasks that were handed to the batch handler so far.
pub record Scheduler : Type 0 where
  pub buffer : List ℕ
  pub queue : TaskQueue
  pub sent : List ℕ

-- One turn: the configured strategy, the tasks put since the turn before, and what the strategies
-- read. The loops of the FIFO and the batching strategy have fuel for `limit` tasks and for the
-- rounds up to `last`.
pub record Turn : Type 0 where
  pub strategy : String
  pub puts : List ℕ
  pub rounds : Rounds
  pub limit : ℕ
  pub last : ℕ
  pub start : ℕ
  pub heap : Heap
  pub readings : Readings

abbrev pub handled : Scheduler → Option (List ℕ × TaskQueue) → Option Scheduler
handled s none = none
handled s (some (batch, q)) = some (record { buffer = s.buffer; queue = q; sent = s.sent ++ batch })

abbrev pub is_latency_aware : Turn → Bool
is_latency_aware t = str_eq t.strategy "latency_aware"

-- A turn of `_loop`; an unknown strategy does nothing.
unfoldable pub turn : Turn → Scheduler → Option Scheduler
unfolding arrive fifo_next_batch batching_next_batch latency_next_batch
turn t s =
    let q = arrive t.puts s.queue in
    if str_eq t.strategy "fifo"
    then handled s (fifo_next_batch (suc t.limit) t.rounds q)
    else if str_eq t.strategy "batching"
    then handled s (batching_next_batch (suc t.last) t.start t.rounds q)
    else if is_latency_aware t
    then (let (batch, kept, q') = latency_next_batch t.heap t.readings s.buffer q in
        some (record { buffer = kept; queue = q'; sent = s.sent ++ batch }))
    else some (record s { queue = q })

abbrev pub then_turns : (Scheduler → Option Scheduler) → Option Scheduler → Option Scheduler
then_turns rest none = none
then_turns rest (some s) = rest s

unfoldable pub turns : List Turn → Scheduler → Option Scheduler
unfolding turn
turns [] s = some s
turns (t ∷ ts) s = then_turns (turns ts) (turn t s)
