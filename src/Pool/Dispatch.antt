-- ===== src/Pool/Dispatch.antt =====
-- The dispatch of a batch and the removal of a proxy, with the pool's own retry handler.
use latency_aware_inference.Common.{ℕ, Bool, String, List, All, ◌⊎◌, if_cases}
use latency_aware_inference.Task.Heap.{IsTerminal}
use latency_aware_inference.Proxy.{GrpcWorker, begin_stop, retire, remove_metrics}
use latency_aware_inference.Proxy.Process.{
  Instant, TaskRequest, RpcOutcome, Site, Readings, process, finish_all,
}
use latency_aware_inference.Proxy.Evolution.{SiteEvolves}
use latency_aware_inference.Proxy.Settled.{IsFailure, process-IsSettled, finish_all-IsSettled}
use latency_aware_inference.Proxy.Removal.{tasks_of, stop_worker}
use latency_aware_inference.Pool.{Pool, try_resubmit}
use latency_aware_inference.Pool.Submission.{Waits}
use latency_aware_inference.Pool.Handoffs.{
  try_resubmit-HeapEvolves, try_resubmit-Keeps, try_resubmit-Waits,
}

-- The other threads change the pool as `meanwhile` says, and dispatch no waiting task.
module _ (meanwhile : Pool → Pool)
    (patient : (q : Pool) (k : ℕ) → Waits q.workers k → Waits (meanwhile q).workers k)
    (worker : String) where
  -- If every call fails, a dispatch leaves each task of its batch terminal or waiting in a proxy's
  -- queue of the pool, on every kind of failure and also where a stop overtakes it, under the
  -- conditions that the threads that run during the call reopen no task and that those that run
  -- during a handoff take no waiting task out of a queue.
  pub process_failed :
      (e : Readings) (rpc : List TaskRequest → ℕ → Site Pool → RpcOutcome × Site Pool)
      → ((qs : List TaskRequest) (n : ℕ) (s : Site Pool) → SiteEvolves s (rpc qs n s).1)
      → ((qs : List TaskRequest) (n : ℕ) (s : Site Pool) → IsFailure (rpc qs n s).0)
      → (batch : List ℕ) (s : Site Pool)
      → let end = process (try_resubmit meanwhile worker) e rpc batch s in
        All (λ r. IsTerminal end.heap r ⊎ Waits end.pool.workers r) batch
  process_failed e rpc evolves fails batch s =
      process-IsSettled (λ (p : Pool) r. Waits p.workers r) (try_resubmit meanwhile worker)
        (λ r t p h. try_resubmit-HeapEvolves meanwhile worker r t p h)
        (try_resubmit-Waits meanwhile worker)
        (λ r t p h q w. try_resubmit-Keeps meanwhile worker r t p h patient q w) e rpc evolves fails
        batch s

  -- Stopping a proxy that is removed, with either policy, leaves each task that was queued in it
  -- terminal, or waiting in a proxy's queue of the pool, under the condition that the threads that
  -- run during a handoff take no waiting task out of a queue.
  pub stop_worker-IsSettled :
      (retry_pending : Bool) (clock : ℕ → Instant) (w : GrpcWorker) (s : Site Pool)
      → let (_, end) = stop_worker (try_resubmit meanwhile worker) retry_pending clock w s in
        All (λ r. IsTerminal end.heap r ⊎ Waits end.pool.workers r) (tasks_of w.batch_queue)
  unfolding stop_worker begin_stop retire remove_metrics
  stop_worker-IsSettled retry_pending clock w s =
      if_cases
        (λ (v : GrpcWorker).
          (let end =
              finish_all (try_resubmit meanwhile worker) "worker removed" v.retry_on_stop clock 0
                (tasks_of v.batch_queue) s in
            All (λ r. IsTerminal end.heap r ⊎ Waits end.pool.workers r) (tasks_of w.batch_queue)))
        w.stopped _ _ (λ _. settled w.retry_on_stop) (λ _. settled retry_pending)
    where
      settled :
          (policy : Bool)
          → (let end =
                finish_all
                  (try_resubmit meanwhile worker)
                  "worker removed"
                  policy
                  clock
                  0
                  (tasks_of w.batch_queue)
                  s in
              All (λ r. IsTerminal end.heap r ⊎ Waits end.pool.workers r) (tasks_of w.batch_queue))
      settled policy =
          finish_all-IsSettled (λ (p : Pool) r. Waits p.workers r) (try_resubmit meanwhile worker)
            (λ r t p h. try_resubmit-HeapEvolves meanwhile worker r t p h)
            (try_resubmit-Waits meanwhile worker)
            (λ r t p h q v. try_resubmit-Keeps meanwhile worker r t p h patient q v)
            "worker removed" policy clock 0 (tasks_of w.batch_queue) s
