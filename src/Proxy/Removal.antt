-- ===== src/Proxy/Removal.antt =====
-- system/grpc_worker_pool.py: `GrpcWorker.stop`, the end of a proxy.
use latency_aware_inference.Common.{ℕ, Bool, List, [], ◌∷◌, ◌++◌}
use latency_aware_inference.Task.Heap.{Heap}
use latency_aware_inference.Proxy.{GrpcWorker, begin_stop, retire, remove_metrics}
use latency_aware_inference.Proxy.Process.{Instant, Handoff, Site, finish_all}

-- `for batch in pending: for task in batch: ...`
abbrev pub tasks_of : List (List ℕ) → List ℕ
tasks_of [] = []
tasks_of (b ∷ bs) = b ++ tasks_of bs

module _ {P : Type 0} (retry_handler : ℕ → Instant → P → Heap → Handoff × P × Heap) where
  unfoldable pub stop_worker : Bool → (ℕ → Instant) → GrpcWorker → Site P → GrpcWorker × Site P
  unfolding begin_stop retire remove_metrics finish_all
  stop_worker retry_pending clock w s =
      let stopping = begin_stop retry_pending w in
      let (pending, closed) = retire stopping in
      (
        remove_metrics closed,
        finish_all retry_handler "worker removed" closed.retry_on_stop clock 0 (tasks_of pending) s,
      )
