-- ===== src/Predict.antt =====
-- system/api_server.py: the endpoint `predict`, `readiness` and the middleware `record_metrics`.
-- What the workers do to the task between two reads of it is a sequence of observations, one for
-- each round of the poll and one for each of the two reads after it.
pub mod Answer
pub mod Counts
use latency_aware_inference.Common.{
  ℕ, zero, suc, ◌+◌, ◌*◌, Bool, true, false, not, ◌&&◌, ◌||◌, Option, none, some, String, str_eq,
  List, [], ◌∷◌, leb, ltb, ◌==◌, if◌then◌else◌,
}
use latency_aware_inference.Common.Int.{ℤ, sub_ℕ}
use latency_aware_inference.Task.{
  Task, TaskStatus, pending, processing, done, failed, new_task, is_expired, is_terminal,
  mark_failed,
}
use latency_aware_inference.Task.Payload.{Value, obj, field, end}
use latency_aware_inference.Proxy.Process.{Instant}
use latency_aware_inference.Queue.{TaskQueue, put}

-- A response of the endpoint: an HTTPException with its status code, or a PredictResponse. The
-- latency is in milliseconds.
pub data Response : Type 0 where
  http_error : ℕ → String → Response
  predicted : String → Option Value → Option ℤ → Response

unfoldable pub error_status : Option String → ℕ
error_status none = 500
error_status (some code) =
    if str_eq code "deadline_exceeded" then 504 else if str_eq code "overloaded" then 503 else 500

-- `task.error or "inference failed"`
abbrev pub error_detail : Option String → String
error_detail none = "inference failed"
error_detail (some m) = if str_eq m "" then "inference failed" else m

abbrev pub latency_ms : Task → Option ℤ
latency_ms t = elim t.end_time [ none ↦ none | some e ↦ some (sub_ℕ e t.creation_time) ]

-- The end of `predict`, on the task as it stands.
unfoldable pub respond : Task → Response
unfolding error_status
respond t = elim t.status [
  | pending ↦ http_error 504 "inference timed out"
  | processing ↦ http_error 504 "inference timed out"
  | done ↦ predicted t.task_id t.result (latency_ms t)
  | failed ↦ http_error (error_status t.error_code) (error_detail t.error)
]

module _ (clock : ℕ → Instant) (seen : ℕ → Task) where
  -- The poll from round `i`; its result is the round after which it stops. `none`: the fuel ran
  -- out.
  unfoldable pub poll : ℕ → ℕ → Option ℕ
  poll zero i = none
  poll (suc fuel) i =
      let rest = poll fuel (suc i) in
      if is_expired (seen i) (clock i).monotonic
      then some (suc i)
      else if is_terminal (seen i).status
      then some (suc i)
      else rest

  -- What follows the poll: the read at `i` decides whether the task is marked, at the time of
  -- the next read.
  unfoldable pub settle : ℕ → Task
  unfolding mark_failed
  settle i =
      if is_expired (seen i) (clock i).monotonic
      then mark_failed "request deadline exceeded" (some "deadline_exceeded") (clock (suc i)).wall
          (seen (suc i))
      else seen (suc i)

-- The task that `predict` makes, with its budget of 30 s.
unfoldable pub request_task : Value → String → Instant → Task
unfolding new_task
request_task x id now = new_task (obj (field "x" x end)) id now.wall (some (now.monotonic + 30000))

abbrev pub answer : Option ℕ → (ℕ → Task) → Option Response
answer none settled = none
answer (some i) settled = some (respond (settled i))

abbrev pub enqueued :
    ℕ → (ℕ → Instant) → (ℕ → Task) → TaskQueue → Option TaskQueue → Option Response × TaskQueue
enqueued fuel clock seen q none = (some (http_error 503 "task queue is full"), q)
enqueued fuel clock seen q (some q') = (answer (poll clock seen fuel 0) (settle clock seen), q')

unfoldable pub predict :
    ℕ → ℕ → (ℕ → Instant) → (ℕ → Task) → TaskQueue → Option Response × TaskQueue
unfolding poll settle respond put
predict fuel r clock seen q = enqueued fuel clock seen q (put q r)

-- `readiness`: the pool, if the server has one, says whether it has workers.
unfoldable pub readiness : Option Bool → Bool → Option String
readiness none use_grpc = some "worker pool not initialized"
readiness (some has_workers) use_grpc =
    if not use_grpc
    then some "gRPC worker pool not enabled"
    else if not has_workers
    then some "no workers available"
    else none

-- The counters of `record_metrics`; a response counter for each status code.
pub record Counters : Type 0 where
  pub requests : ℕ
  pub failures : ℕ
  pub responses : ℕ → ℕ
  pub observed : ℕ

-- How the application ended the request: with a status code, or by an exception.
pub data Outcome : Type 0 where
  responded : ℕ → Outcome
  excepted : Outcome

abbrev pub status_of : Outcome → ℕ
status_of (responded code) = code
status_of excepted = 500

abbrev pub is_failure : Outcome → Bool
is_failure (responded code) = leb 400 code
is_failure excepted = true

unfoldable pub record_metrics : String → String → Outcome → Counters → Counters
record_metrics method path outcome c =
    if not (str_eq method "POST") || not (str_eq path "/predict") then c else record c {
      requests = c.requests + 1;
      failures = if is_failure outcome then c.failures + 1 else c.failures;
      responses =
          λ code. if code == status_of outcome then c.responses code + 1 else c.responses code;
      observed = c.observed + 1;
    }
