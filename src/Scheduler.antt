-- ===== src/Scheduler.antt =====
-- system/scheduler.py: the three strategies, and in Loop the scheduler's loop. The readings of
-- the clock and of the shared configuration, which other threads change, are arguments, one for
-- each place and round that reads them; so are the tasks that other threads put meanwhile.
pub mod Fill
pub mod Oldest
pub mod Buffer
pub mod Loop
use latency_aware_inference.Common.{
  ℕ, zero, suc, ◌+◌, ◌-◌, ◌*◌, ◌≡◌, Bool, true, false, not, ◌&&◌, ◌||◌, Option, none, some, String,
  str_eq, List, [], ◌∷◌, ◌++◌, length, take, select, is_empty, elem, ltb, leb, ◌==◌, if◌then◌else◌,
}
use latency_aware_inference.Common.Int.{ℤ, pos, leb_ℤ}
use latency_aware_inference.Task.{Task, age_ms}
use latency_aware_inference.Task.Heap.{Heap}
use latency_aware_inference.Queue.{TaskQueue, get, drain}

-- Other threads put these tasks while a `get` waits.
unfoldable pub arrive : List ℕ → TaskQueue → TaskQueue
arrive tasks q = record q {
  items = q.items ++ tasks;
  total_enqueued = q.total_enqueued + length tasks;
}

-- What the rounds of a loop read: `size i` is `config.batch_size` in round i, `arrivals i` the
-- tasks put while round i waits, `clock i` the reading of round i.
pub record Rounds : Type 0 where
  pub size : ℕ → ℕ
  pub arrivals : ℕ → List ℕ
  pub clock : ℕ → ℕ

-- The rounds as the next one sees them.
abbrev pub later : Rounds → Rounds
later e = record {
  size = λ i. e.size (suc i);
  arrivals = λ i. e.arrivals (suc i);
  clock = λ i. e.clock (suc i);
}

-- `batch.append(task)`, before the rounds that follow.
abbrev pub prepend : ℕ → Option (List ℕ × TaskQueue) → Option (List ℕ × TaskQueue)
prepend task none = none
prepend task (some (more, q)) = some (task ∷ more, q)

-- `FIFOScheduler.next_batch`, from a batch that holds `n` tasks: the tasks that it adds. `none`
-- is fuel that ran out.
unfoldable pub fifo_rounds : ℕ → Rounds → ℕ → TaskQueue → Option (List ℕ × TaskQueue)
fifo_rounds zero e n q = none
fifo_rounds (suc fuel) e n q = elim (ltb n (e.size 0)) [
  | false ↦ some ([], q)
  | true ↦
      (let (got, q') = get (arrive (e.arrivals 0) q) in
        elim got [
          | none ↦ some ([], q')
          | some task ↦ prepend task (fifo_rounds fuel (later e) (suc n) q')
        ])
]

unfoldable pub fifo_next_batch : ℕ → Rounds → TaskQueue → Option (List ℕ × TaskQueue)
unfolding fifo_rounds
fifo_next_batch fuel e q = fifo_rounds fuel e 0 q

-- `BatchingScheduler.next_batch`, whose window is `limit`.
unfoldable pub fill_rounds : ℕ → Rounds → ℕ → ℕ → TaskQueue → Option (List ℕ × TaskQueue)
fill_rounds zero e limit n q = none
fill_rounds (suc fuel) e limit n q = elim (ltb n (e.size 0) && ltb (e.clock 0) limit) [
  | false ↦ some ([], q)
  | true ↦
      (let (got, q') = get (arrive (e.arrivals 0) q) in
        elim got [
          | none ↦ fill_rounds fuel (later e) limit n q'
          | some task ↦ prepend task (fill_rounds fuel (later e) limit (suc n) q')
        ])
]

abbrev pub fill_timeout : ℕ
fill_timeout = 100

unfoldable pub batching_next_batch : ℕ → ℕ → Rounds → TaskQueue → Option (List ℕ × TaskQueue)
unfolding fill_rounds
batching_next_batch fuel start e q = fill_rounds fuel e (start + fill_timeout) 0 q

-- `list.sort(key=lambda t: t.creation_time)` is stable.
unfoldable pub insert_by : (ℕ → ℕ) → ℕ → List ℕ → List ℕ
insert_by key x [] = x ∷ []
insert_by key x (y ∷ ys) = if leb (key x) (key y) then x ∷ y ∷ ys else y ∷ insert_by key x ys

unfoldable pub sort_by : (ℕ → ℕ) → List ℕ → List ℕ
unfolding insert_by
sort_by key [] = []
sort_by key (x ∷ xs) = insert_by key x (sort_by key xs)

-- What one call of the latency-aware strategy reads: `config.batch_size` for the cap and for the
-- cut, the threshold, and the clock at each task, in the pass for `old` and in that for `fresh`.
pub record Readings : Type 0 where
  pub cap_size : ℕ
  pub cut_size : ℕ
  pub threshold : ℕ
  pub old_clock : ℕ → ℕ
  pub fresh_clock : ℕ → ℕ

module _ (h : Heap) (e : Readings) where
  -- `self._buffer` after the drain.
  unfoldable pub top_up : List ℕ → TaskQueue → List ℕ × TaskQueue
  top_up buffer q =
      let cap = e.cap_size * 4 in
      if ltb (length buffer) cap
      then (let (new, q') = drain (cap - length buffer) q in (buffer ++ new, q'))
      else (buffer, q)

  abbrev pub is_old : ℕ → Bool
  is_old r = leb_ℤ (pos e.threshold) (age_ms (h r) (e.old_clock r))

  abbrev pub is_fresh : ℕ → Bool
  is_fresh r = not (leb_ℤ (pos e.threshold) (age_ms (h r) (e.fresh_clock r)))

  abbrev pub created : ℕ → ℕ
  created r = (h r).creation_time

  -- `(old + fresh)[: config.batch_size]`
  unfoldable pub choose : List ℕ → List ℕ
  unfolding sort_by
  choose buffer =
      take e.cut_size
        (sort_by created (select is_old buffer) ++ sort_by created (select is_fresh buffer))

  unfoldable pub keep : List ℕ → List ℕ → List ℕ
  keep batch buffer = select (λ r. not (elem r batch)) buffer

  -- The batch, the buffer and the queue after `LatencyAwareScheduler.next_batch`.
  unfoldable pub latency_next_batch : List ℕ → TaskQueue → List ℕ × List ℕ × TaskQueue
  latency_next_batch buffer q =
      let (full, q') = top_up buffer q in
      if is_empty full
      then ([], full, q')
      else (let batch = choose full in (batch, keep batch full, q'))
