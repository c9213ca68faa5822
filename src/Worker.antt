-- ===== src/Worker.antt =====
-- system/worker.py: the local simulation pool. Each worker's queue is unbounded; a batch holds
-- references to the task heap. The uniform draw of the failure injection and the clock readings
-- are arguments.
pub mod Batches
pub mod Balance
use latency_aware_inference.Common.{
  ℕ, zero, suc, ◌+◌, ◌%◌, Bool, true, false, not, Option, none, some, String, List, [], ◌∷◌, map,
  ◌++◌, length, get_elem?, select, is_empty, str_eq, if◌then◌else◌, ◌==◌,
}
use latency_aware_inference.Common.Int.{ℤ, pos, ◌*ℤ◌}
use latency_aware_inference.Task.{Task, mark_processing, mark_done, mark_failed}
use latency_aware_inference.Task.Payload.{Value, null, bool, int, str, arr, obj, field, end}
use latency_aware_inference.Task.Payload
use latency_aware_inference.Task.Heap.{Heap, on, each}

pub record Worker : Type 0 where
  pub worker_id : ℕ
  pub batch_queue : List (List ℕ)
  pub has_work : Bool
  pub stopped : Bool
  pub processed : ℕ

unfoldable pub new_worker : ℕ → Worker
new_worker id = record {
  worker_id = id;
  batch_queue = [];
  has_work = false;
  stopped = false;
  processed = 0;
}

unfoldable pub accept : List ℕ → Worker → Worker
accept batch w = record w { batch_queue = w.batch_queue ++ batch ∷ []; has_work = true }

-- `stop`, before the join.
unfoldable pub stop : Worker → Worker
stop w = record w { stopped = true; has_work = true }

unfoldable pub busy : Worker → Bool
busy w = not (is_empty w.batch_queue)

-- The locked part of the inner loop of `_loop`.
unfoldable pub take_batch : Worker → Option (List ℕ × Worker)
take_batch w = elim w.batch_queue [
  | [] ↦ none
  | batch ∷ rest ↦ some (batch, record w { batch_queue = rest })
]

-- `task.input_data.get("x", 0) if isinstance(task.input_data, dict) else 0`
abbrev pub or_zero : Option Value → Value
or_zero none = int (pos 0)
or_zero (some v) = v

abbrev pub input_x : Value → Value
input_x null = int (pos 0)
input_x (bool b) = int (pos 0)
input_x (int n) = int (pos 0)
input_x (str s) = int (pos 0)
input_x (arr xs) = int (pos 0)
input_x (obj fields) = or_zero (Payload.get "x" fields)

-- `x * x`, or the text of its TypeError.
pub data Square : Type 0 where
  square : ℤ → Square
  type_error : String → Square

unfoldable pub squared : Value → Square
squared null = type_error "unsupported operand type(s) for *: 'NoneType' and 'NoneType'"
squared (bool b) = square (pos (if b then 1 else 0))
squared (int n) = square (n *ℤ n)
squared (str s) = type_error "can't multiply sequence by non-int of type 'str'"
squared (arr xs) = type_error "can't multiply sequence by non-int of type 'list'"
squared (obj fields) = type_error "unsupported operand type(s) for *: 'dict' and 'dict'"

abbrev pub concluded : ℕ → ℕ → Square → Task → Task
concluded id now (square n) t =
    mark_done (obj (field "prediction" (int n) (field "worker_id" (int (pos id)) end))) now t
concluded id now (type_error m) t = mark_failed m none now t

-- The body of the last loop of `_process`.
unfoldable pub infer : ℕ → ℕ → Task → Task
unfolding squared mark_done mark_failed
infer id now t = concluded id now (squared (input_x t.input_data)) t

-- `injected`: the failure rate is positive and the draw is below it. The loops read the clock
-- once for each task; one reading stands for the start and one for the end.
unfoldable pub process : Bool → String → ℕ → ℕ → List ℕ → Worker × Heap → Worker × Heap
unfolding infer mark_processing mark_failed
process injected error_msg start now batch (w, h) =
    let h' = each (mark_processing start) batch h in
    if injected then (w, each (mark_failed error_msg none now) batch h') else (
      record w { processed = w.processed + length batch },
      each (infer w.worker_id now) batch h',
    )

pub record WorkerPool : Type 0 where
  pub workers : List Worker
  pub rr_index : ℕ

abbrev pub workers_from : ℕ → ℕ → List Worker
workers_from i zero = []
workers_from i (suc n) = new_worker i ∷ workers_from (i + 1) n

-- `start`: one worker for each number below `config.num_workers`.
unfoldable pub start : ℕ → WorkerPool → WorkerPool
unfolding new_worker
start num_workers p = record p { workers = workers_from 0 num_workers }

unfoldable pub stop_all : WorkerPool → WorkerPool
unfolding stop
stop_all p = record p { workers = map stop p.workers }

-- The workers that `submit` chooses from.
abbrev pub choices : List Worker → List Worker
choices workers =
    let idle = select (λ w. not (busy w)) workers in if is_empty idle then workers else idle

-- `pool[self._rr_index % len(pool)]`
unfoldable pub choose : WorkerPool → Option Worker
unfolding busy
choose p = let pool = choices p.workers in get_elem? pool (p.rr_index % length pool)

unfoldable pub submit : List ℕ → ℕ → WorkerPool × Heap → WorkerPool × Heap
unfolding choose accept mark_failed
submit batch now (p, h) =
    if is_empty p.workers
    then (p, each (mark_failed "no workers available" none now) batch h)
    else elim (choose p) [
      | none ↦ (p, h)
      | some chosen ↦
          let put = λ (w : Worker). if w.worker_id == chosen.worker_id then accept batch w else w in
          (record { workers = map put p.workers; rr_index = p.rr_index + 1 }, h)
    ]
