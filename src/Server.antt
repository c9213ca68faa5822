-- ===== src/Server.antt =====
-- system/grpc_worker_server.py: `WorkerServicer`, the worker's side of the call. The simulated
-- latency is in whole milliseconds; `backend` is a worker of another module, a parameter.
pub mod Answers
use latency_aware_inference.Common.{
  ℕ, zero, suc, ◌+◌, ◌*◌, ◌/◌, Bool, true, false, not, Option, none, some, String, str_eq, List, [],
  ◌∷◌, ◌++◌, map, length, leb, is_empty, if◌then◌else◌,
}
use latency_aware_inference.Common.Int.{ℤ, pos}
use latency_aware_inference.Task.Payload.{Value, int, obj, field, end}
use latency_aware_inference.Proxy.Process.{Parsed, parsed, malformed, TaskResult}
use latency_aware_inference.Worker.{Square, square, type_error, input_x, squared}
use latency_aware_inference.Gate.{Marker, Gate, enter, leave}

-- A task of a request, with what `json.loads` makes of its input.
pub record ServerTask : Type 0 where
  pub task_id : String
  pub input_json : Parsed
  pub remaining : Option ℕ

-- What one run of `_process_batch` reads: the clock at its start, at round i of the loops over the
-- tasks, and in round j of the waiting loop, with what the call's context says there;
-- and the message of the injected failure, if one is drawn.
pub record Environment : Type 0 where
  pub received : ℕ
  pub first_clock : ℕ → ℕ
  pub injected : Option String
  pub started : ℕ
  pub latency_ms : ℕ
  pub is_active : ℕ → Bool
  pub round_clock : ℕ → ℕ
  pub wait_clock : ℕ → ℕ
  pub last_clock : ℕ → ℕ

abbrev pub deadline_at : ℕ → Option ℕ → Option ℕ
deadline_at received none = none
deadline_at received (some left) = some (received + left)

-- The dict `deadlines`: the last task of an identity sets it.
abbrev pub deadlines : ℕ → List ServerTask → (String → Option ℕ) → String → Option ℕ
deadlines received [] d = d
deadlines received (t ∷ ts) d =
    deadlines received ts
      (λ id. if str_eq id t.task_id then deadline_at received t.remaining else d id)

abbrev pub is_late : Option ℕ → ℕ → Bool
is_late none now = false
is_late (some d) now = leb d now

abbrev pub failure : String → String → ServerTask → TaskResult
failure error code t = record {
  task_id = t.task_id;
  success = false;
  result_json = malformed "";
  error = error;
  error_code = code;
}

abbrev pub late : ServerTask → TaskResult
late t = failure "request deadline exceeded" "deadline_exceeded" t

-- A loop that answers the late tasks and keeps the others, with the reading of its round.
abbrev pub sift :
    (String → Option ℕ) → (ℕ → ℕ) → ℕ → List ServerTask → List TaskResult × List ServerTask
sift d clock i [] = ([], [])
sift d clock i (t ∷ ts) =
    let (results, active) = sift d clock (suc i) ts in
    if is_late (d t.task_id) (clock i) then (late t ∷ results, active) else (results, t ∷ active)

abbrev pub preceded :
    List TaskResult
    → Option (List TaskResult × (List ServerTask × Bool))
    → Option (List TaskResult × (List ServerTask × Bool))
preceded results none = none
preceded results (some (more, left)) = some (results ++ more, left)

-- The waiting loop from round `j`: `none` if the fuel runs out. The last component is whether the
-- tasks that are left are to be computed.
unfoldable pub wait_loop :
    ℕ
    → Environment
    → (String → Option ℕ)
    → ℕ
    → ℕ
    → List ServerTask
    → Option (List TaskResult × (List ServerTask × Bool))
wait_loop zero e d finish_at j active = none
wait_loop (suc fuel) e d finish_at j active =
    let (results, remaining) = sift d (λ i. e.round_clock j) 0 active in
    let rest = wait_loop fuel e d finish_at (suc j) remaining in
    if not (e.is_active j)
    then some ([], (active, false))
    else if is_empty remaining
    then some (results, ([], false))
    else if leb finish_at (e.wait_clock j)
    then some (results, (remaining, true))
    else preceded results rest

-- `json.dumps` of the result, as the value that it is read back to.
abbrev pub computed : ℕ → ServerTask → Square → TaskResult
computed id t (square n) = record {
  task_id = t.task_id;
  success = true;
  result_json = parsed (obj (field "prediction" (int n) (field "worker_id" (int (pos id)) end)));
  error = "";
  error_code = "";
}
computed id t (type_error m) = failure m "" t

unfoldable pub compute : ℕ → ServerTask → TaskResult
unfolding squared
compute id t = elim t.input_json [
  | parsed v ↦ computed id t (squared (input_x v))
  | malformed m ↦ failure m "" t
]

abbrev pub finish_loop : ℕ → (String → Option ℕ) → (ℕ → ℕ) → ℕ → List ServerTask → List TaskResult
finish_loop id d clock i [] = []
finish_loop id d clock i (t ∷ ts) =
    (if is_late (d t.task_id) (clock i) then late t else compute id t)
    ∷ finish_loop id d clock (suc i) ts

abbrev pub finished :
    ℕ
    → Environment
    → (String → Option ℕ)
    → List TaskResult
    → Option (List TaskResult × (List ServerTask × Bool))
    → Option (List TaskResult)
finished id e d results none = none
finished id e d results (some (more, (left, true))) =
    some (results ++ more ++ finish_loop id d e.last_clock 0 left)
finished id e d results (some (more, (left, false))) = some (results ++ more)

abbrev pub total_ms : ℕ → ℕ → ℕ
total_ms latency n = latency + n * latency / 5

unfoldable pub process_batch : ℕ → ℕ → Environment → List ServerTask → Option (List TaskResult)
unfolding wait_loop compute
process_batch fuel id e tasks =
    let d = deadlines e.received tasks (λ id. none) in
    let (results, active) = sift d e.first_clock 0 tasks in
    if is_empty active then some results else elim e.injected [
      | some m ↦ some (results ++ map (failure m "") active)
      | none ↦
          finished id e d results
            (wait_loop fuel e d (e.started + total_ms e.latency_ms (length active)) 0 active)
    ]

-- How the backend ends: a result, a `WorkerError` with its code, or another exception.
pub data Ending : Type 0 where
  produced : Value → Ending
  worker_error : String → String → Ending
  crashed : Ending

abbrev pub reported : ServerTask → Ending → TaskResult
reported t (produced v) = record {
  task_id = t.task_id;
  success = true;
  result_json = parsed v;
  error = "";
  error_code = "";
}
reported t (worker_error code m) = failure m code t
reported t crashed = failure "unexpected worker failure" "worker_error" t

-- `_process_backend`
module _ (backend : Value → Option ℕ → Ending) where
  abbrev pub backend_result : ℕ → ServerTask → TaskResult
  backend_result received t = elim t.input_json [
    | parsed v ↦ reported t (backend v (deadline_at received t.remaining))
    | malformed m ↦ failure "input_json must be valid JSON" "invalid_spec" t
  ]

  unfoldable pub process_backend : ℕ → List ServerTask → List TaskResult
  process_backend received [] = []
  process_backend received (t ∷ ts) = backend_result received t ∷ process_backend received ts

-- `ProcessBatch`: the work runs between `enter` and `leave` of the gate, if there is one.
abbrev pub gated : List ServerTask → List TaskResult → Bool × Gate → List TaskResult × Gate
gated tasks results (true, g) = (results, leave g)
gated tasks results (false, g) = (map (failure "adapter is updating" "worker_busy") tasks, g)

unfoldable pub handle_batch :
    Option (Marker × Gate) → List ServerTask → List TaskResult → List TaskResult × Option Gate
unfolding enter leave
handle_batch none tasks results = (results, none)
handle_batch (some (m, g)) tasks results =
    let (out, g') = gated tasks results (enter m g) in (out, some g')
