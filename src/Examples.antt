-- ===== src/Examples.antt =====
-- The theorems at concrete inputs, and the data of these.
mod Serving
mod Scheduling
mod Jobs
mod Service
mod Working
mod Watching
mod Models
mod Texts
mod Registration
mod Deployment
mod Records
mod Settings
use latency_aware_inference.Common.{
  ℕ, Bool, true, false, Option, none, some, String, List, [], ◌∷◌, ◌+◌, ◌==◌, if◌then◌else◌,
}
use latency_aware_inference.Common.Int.{pos}
use latency_aware_inference.Task.{Task, new_task}
use latency_aware_inference.Task.Payload.{Value, int, str, obj, field, end}
use latency_aware_inference.Task.Heap.{Heap}
use latency_aware_inference.Queue.{TaskQueue}
use latency_aware_inference.Proxy.{GrpcWorker, new_worker}
use latency_aware_inference.Proxy.Process.{
  Instant, TaskRequest, RpcOutcome, rpc_error, unavailable, Site, Readings,
}
use latency_aware_inference.Pool.{Pool}

-- Task 1 is a durable task, every other task a simulation of x = 3.
abbrev pub payload : ℕ → Value
payload r =
    if r == 1 then obj (field "kind" (str "synthx_v73") end) else obj (field "x" (int (pos 3)) end)

abbrev pub heap : Heap
heap r = new_task (payload r) (if r == 1 then "a" else "b") 5 (some 30000)

abbrev pub instant : ℕ → Instant
instant i = record { monotonic = 100 + i; wall = 200 + i }

abbrev pub worker : GrpcWorker
worker = new_worker 0 "worker-1" "host:50051"

abbrev pub pool : Pool
pool = record {
  workers = new_worker 0 "worker-1" "host-1:50051" ∷ new_worker 1 "worker-2" "host-2:50051" ∷ [];
  rr_index = 0;
  stopping = false;
  capabilities = none;
  next_identity = 2;
  retry_submissions = 0;
  worker_count = 2;
}

abbrev pub names : ℕ → String
names n = if n == 0 then "worker-1" else "worker-2"

abbrev pub same : Pool → Pool
same p = p

abbrev pub site : Site Pool
site = record { heap = heap; pool = pool; retry_completions = 0 }

abbrev pub rpc : List TaskRequest → ℕ → Site Pool → RpcOutcome × Site Pool
rpc qs n s = (rpc_error unavailable "connection refused", s)

abbrev pub readings : Readings
readings = record {
  live_clock = instant;
  start_clock = instant;
  budget_clock = λ i. 100 + i;
  result_clock = instant;
  omit_clock = instant;
  end_clock = instant;
  stop_before = false;
  policy_before = true;
  stop_after = false;
  policy_after = true;
  stop_again = false;
}

abbrev pub queue : TaskQueue
queue = record { maxsize = 3; items = 1 ∷ 2 ∷ []; total_enqueued = 2; total_dequeued = 0 }
