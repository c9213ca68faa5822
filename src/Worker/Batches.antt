-- ===== src/Worker/Batches.antt =====
-- The tasks of a processed batch.
use latency_aware_inference.Common.{
  ℕ, ◌≡◌, Bool, true, String, Option, none, List, All, arith, if_cases,
}
use latency_aware_inference.Task.{Task, is_terminal, mark_processing, mark_done, mark_failed}
use latency_aware_inference.Task.Heap.{Heap, each, IsTerminal, each-IsTerminal}
use latency_aware_inference.Task.Lifecycle.{Evolves, mark_done-Evolves, mark_failed-Evolves}
use latency_aware_inference.Worker.{
  Worker, Square, square, type_error, concluded, squared, infer, input_x, process,
}
use latency_aware_inference.Task.Payload.{Value}

concluded-Evolves : (id now : ℕ) (x : Square) (t : Task) → Evolves t (concluded id now x t)
concluded-Evolves id now (square n) t = mark_done-Evolves _ now t
concluded-Evolves id now (type_error m) t = mark_failed-Evolves m none now t

mark_done-ends : (v : Value) (now : ℕ) (t : Task) → is_terminal (mark_done v now t).status ≡ true
unfolding mark_done
mark_done-ends v now t = ground arith

mark_failed-ends :
    (m : String) (c : Option String) (now : ℕ) (t : Task)
    → is_terminal (mark_failed m c now t).status ≡ true
unfolding mark_failed
mark_failed-ends m c now t = ground arith

concluded-ends :
    (id now : ℕ) (x : Square) (t : Task) → is_terminal (concluded id now x t).status ≡ true
concluded-ends id now (square n) t = mark_done-ends _ now t
concluded-ends id now (type_error m) t = mark_failed-ends m none now t

-- The local worker ends each task of its batch, whether the failure is injected or not and
-- whatever the payload holds.
pub process-IsTerminal :
    (injected : Bool) (error_msg : String) (start now : ℕ) (batch : List ℕ) (w : Worker) (h : Heap)
    → All (IsTerminal (process injected error_msg start now batch (w, h)).1) batch
unfolding process infer
process-IsTerminal injected error_msg start now batch w h =
    if_cases (λ (x : Worker × Heap). All (IsTerminal x.1) batch) injected _ _
      (λ _.
        each-IsTerminal (mark_failed error_msg none now) (mark_failed-Evolves error_msg none now)
          (mark_failed-ends error_msg none now) batch (each (mark_processing start) batch h))
      (λ _.
        each-IsTerminal (infer w.worker_id now)
          (λ t. concluded-Evolves w.worker_id now (squared (input_x t.input_data)) t)
          (λ t. concluded-ends w.worker_id now (squared (input_x t.input_data)) t) batch
          (each (mark_processing start) batch h))
