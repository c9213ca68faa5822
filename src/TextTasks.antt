-- ===== src/TextTasks.antt =====
-- system/api_server.py: `text_task`. The task, its deadline's clock and the connection of the caller
-- are observed once in each round of the wait; `encode` is as in TextWorker. The authorization
-- of the endpoint, that of the jobs, is in JobEndpoints.
pub mod Agreement
pub mod Waiting
use latency_aware_inference.Common.{
  ℕ, zero, suc, ◌+◌, Bool, true, false, not, ◌&&◌, ◌||◌, Option, none, some, String, str_eq, leb,
  if◌then◌else◌,
}
use latency_aware_inference.Common.Result.{Result, ok, raised, ◌>>=◌, ◌>>◌, unless_raise, or_raise}
use latency_aware_inference.Task.{
  Task, TaskStatus, pending, processing, done, failed, new_task, is_expired, is_terminal,
  mark_failed,
}
use latency_aware_inference.Task.Payload.{Value, Fields, str, obj, field, end}
use latency_aware_inference.Proxy.Process.{Instant}
use latency_aware_inference.Queue.{TaskQueue, put}
use latency_aware_inference.V73.Payload.{is_text, text_at}
use latency_aware_inference.TextWorker.{has_anchor, is_similar}

pub data TextModel : Type 0 where
  text_v1 text_refinement : TextModel

pub data TextOperation : Type 0 where
  retrieve rerank : TextOperation

pub record TextTaskRequest : Type 0 where
  pub model : TextModel
  pub operation : TextOperation
  pub payload : Fields

abbrev pub model_name : TextModel → String
model_name text_v1 = "text_v1.2.3"
model_name text_refinement = "text_v1.2_refinement"

abbrev pub operation_name : TextOperation → String
operation_name retrieve = "retrieve"
operation_name rerank = "rerank"

abbrev pub is_retrieve : TextOperation → Bool
is_retrieve retrieve = true
is_retrieve rerank = false

abbrev pub is_refinement : TextModel → Bool
is_refinement text_v1 = false
is_refinement text_refinement = true

-- An HTTPException: its status code, the task's error code where its detail has one, and the
-- message.
pub data HttpError : Type 0 where
  http : ℕ → String → HttpError
  task_error : ℕ → Option String → Option String → HttpError

abbrev pub kind_name : TextModel → String
kind_name text_v1 = "synthx_text_v123"
kind_name text_refinement = "synthx_text_refinement"

-- `{"kind": kind, **body.model_dump()}`
unfoldable pub task_data : TextTaskRequest → Value
task_data q = obj (
    field "kind" (str (kind_name q.model)) (
      field "model" (str (model_name q.model)) (
        field "operation" (str (operation_name q.operation))
          (field "payload" (obj q.payload) end))))

abbrev pub budget : TextOperation → ℕ
budget retrieve = 600000
budget rerank = 180000

module _ (encode : Value → Option ℕ) where
  -- The tests before the task is made.
  unfoldable pub admit : TextTaskRequest → Result HttpError (Unit {0})
  admit q = do
    length ← or_raise (encode (obj q.payload)) (http 422 "payload must be finite JSON")
    unless_raise (leb length 262144) (http 413 "text payload exceeds 256 KiB")
    unless_raise
        (not (is_retrieve q.operation)
          || is_text (text_at "pipeline_version" q.payload) (model_name q.model))
        (http 422 "retrieval version does not match worker")
    unless_raise
        (not (is_retrieve q.operation && is_refinement q.model)
          || (is_similar q.payload && has_anchor q.payload))
        (http 422 "MFCC refinement requires a verified bank anchor")
    unless_raise
        (not (is_retrieve q.operation && not (is_refinement q.model) && is_similar q.payload))
        (http 422 "anchor retrieval requires the refinement pipeline")

-- The status code for the error code of a failed task.
unfoldable pub text_status : Option String → ℕ
text_status none = 502
text_status (some code) =
    if str_eq code "deadline_exceeded"
    then 504
    else if str_eq code "overloaded" || str_eq code "busy" || str_eq code "transport_error"
    then 503
    else if str_eq code "invalid_spec"
    then 422
    else if str_eq code "cancelled"
    then 499
    else 502

-- The end of `text_task`, on the task as it stands.
unfoldable pub respond : Task → Result HttpError (Option Value)
unfolding text_status
respond t = elim t.status [
  | pending ↦ ok t.result
  | processing ↦ ok t.result
  | done ↦ ok t.result
  | failed ↦ raised (task_error (text_status t.error_code) t.error_code t.error)
]

-- How the wait ends: the task, and the response.
pub record Ending : Type 0 where
  pub task : Task
  pub response : Result HttpError (Option Value)

-- In a round `seen` is the task at the head of the loop and `marked` the task when it is marked.
module _ (clock : ℕ → Instant) (seen marked : ℕ → Task) (is_gone : ℕ → Bool) where
  abbrev pub cancelled : ℕ → Task
  cancelled i = mark_failed "text caller disconnected" (some "cancelled") (clock i).wall (marked i)

  abbrev pub overdue : ℕ → Task
  overdue i =
      mark_failed "text stage deadline exceeded" (some "deadline_exceeded") (clock i).wall
        (marked i)

  -- The rounds from `i` on. `none`: the fuel ran out.
  unfoldable pub wait : ℕ → ℕ → Option Ending
  unfolding respond mark_failed is_expired
  wait zero i = none
  wait (suc fuel) i =
      let rest = wait fuel (suc i) in
      if is_terminal (seen i).status
      then some (record { task = seen i; response = respond (seen i) })
      else if is_gone i
      then some
          (record { task = cancelled i; response = raised (http 499 "text caller disconnected") })
      else if is_expired (marked i) (clock i).monotonic
      then some (record { task = overdue i; response = respond (overdue i) })
      else rest

unfoldable pub text_request : TextTaskRequest → String → Instant → Task
unfolding new_task task_data
text_request q id now =
    new_task (task_data q) id now.wall (some (now.monotonic + budget q.operation))

-- The response of `text_task`, and the queue after it. The task of the request is `r`.
module _ (encode : Value → Option ℕ) (clock : ℕ → Instant) (seen marked : ℕ → Task)
    (is_gone : ℕ → Bool) (fuel r : ℕ) where
  abbrev pub waited : Option Ending → Option (Result HttpError (Option Value))
  waited none = none
  waited (some e) = some e.response

  abbrev pub enqueued :
      TaskQueue → Option TaskQueue → Option (Result HttpError (Option Value)) × TaskQueue
  enqueued q none = (some (raised (http 503 "task queue is full")), q)
  enqueued q (some q') = (waited (wait clock seen marked is_gone fuel 0), q')

  abbrev pub admitted :
      Result HttpError (Unit {0}) → TaskQueue → Option (Result HttpError (Option Value)) × TaskQueue
  admitted (raised e) q = (some (raised e), q)
  admitted (ok _) q = enqueued q (put q r)

  unfoldable pub text_task :
      TextTaskRequest → TaskQueue → Option (Result HttpError (Option Value)) × TaskQueue
  unfolding admit wait put
  text_task body q = admitted (admit encode body) q
