-- ===== src/Proxy/Process.antt =====
-- system/grpc_worker_pool.py: `_process` and `_finish_or_retry`, the dispatch of one batch. The
-- remote call, the retry handler (the pool's `try_resubmit`) and what other threads do during the
-- call are arguments; the readings of the clocks and of the stop flags are given for each place.
use latency_aware_inference.Common.{
  ℕ, suc, ◌+◌, Bool, true, false, not, ◌&&◌, ◌||◌, Option, none, some, String, str_eq, List, [],
  ◌∷◌, leb, ◌==◌, is_empty, if◌then◌else◌,
}
use Prim.Native.Nat.{max}
use latency_aware_inference.Task.{
  Task, TaskStatus, done, is_terminal, is_expired, remaining_seconds, mark_processing, mark_done,
  mark_failed,
}
use latency_aware_inference.Task.Payload.{Value, str, obj, get}
use latency_aware_inference.Task.Heap.{Heap, on}

-- A moment, on `time.monotonic` and on `time.time`.
pub record Instant : Type 0 where
  pub monotonic : ℕ
  pub wall : ℕ

abbrev pub is_durable_kind : Option Value → Bool
is_durable_kind (some (str s)) =
    str_eq s "synthx_v73" || str_eq s "synthx_text_v123" || str_eq s "synthx_text_refinement"
is_durable_kind _ = false

-- `isinstance(input, dict) and input.get("kind") in (...)`
unfoldable pub is_durable : Value → Bool
is_durable (obj fields) = is_durable_kind (get "kind" fields)
is_durable _ = false

-- What the retry handler does: it returns True or False, or raises.
pub data Handoff : Type 0 where
  accepted refused raised : Handoff

-- What `json.loads` makes of a text: a value, or a `ValueError` with its message.
pub data Parsed : Type 0 where
  parsed : Value → Parsed
  malformed : String → Parsed

-- The messages of inference.proto.
pub record TaskRequest : Type 0 where
  pub task_id : String
  pub input : Value
  pub remaining : Option ℕ

pub record TaskResult : Type 0 where
  pub task_id : String
  pub success : Bool
  pub result_json : Parsed
  pub error : String
  pub error_code : String

pub data StatusCode : Type 0 where
  deadline_exceeded unavailable cancelled other_code : StatusCode

-- How the call ends: a response, an `RpcError`, or another exception (`true` if a `ValueError`).
pub data RpcOutcome : Type 0 where
  response : List TaskResult → RpcOutcome
  rpc_error : StatusCode → String → RpcOutcome
  other_error : Bool → String → RpcOutcome

-- The task objects, the pool behind the retry handler, and the counter of completed retries.
pub record Site (P : Type 0) : Type 0 where
  pub heap : Heap
  pub pool : P
  pub retry_completions : ℕ

-- What one run of `_process` reads: the clock at round i of each loop, and the stop flags before
-- and after the call (`stop_again` is the second reading of `_stop` in the RPC handler).
pub record Readings : Type 0 where
  pub live_clock : ℕ → Instant
  pub start_clock : ℕ → Instant
  pub budget_clock : ℕ → ℕ
  pub result_clock : ℕ → Instant
  pub omit_clock : ℕ → Instant
  pub end_clock : ℕ → Instant
  pub stop_before : Bool
  pub policy_before : Bool
  pub stop_after : Bool
  pub policy_after : Bool
  pub stop_again : Bool

abbrev pub is_terminal_at : Heap → ℕ → Bool
is_terminal_at h r = is_terminal (h r).status

-- A task that the dispatch passes over, and what happens to it: the expired one fails.
abbrev pub is_over : Heap → ℕ → Instant → Bool
is_over h r t = is_terminal_at h r || is_expired (h r) t.monotonic

abbrev pub fail_if_expired : ℕ → Instant → Heap → Heap
fail_if_expired r t h =
    if is_terminal_at h r
    then h
    else if is_expired (h r) t.monotonic
    then on r (mark_failed "request deadline exceeded" (some "deadline_exceeded") t.wall) h
    else h

-- The tasks that are still to run, in order, after the expired ones were failed.
unfoldable pub split_live : (ℕ → Instant) → ℕ → List ℕ → Heap → List ℕ × Heap
split_live clock i [] h = ([], h)
split_live clock i (r ∷ rs) h =
    let (live, h') = split_live clock (suc i) rs (fail_if_expired r (clock i) h) in
    (if is_over h r (clock i) then live else r ∷ live, h')

-- A loop that calls one method on each task, with the reading of its round.
abbrev pub each_at : (ℕ → Task → Task) → ℕ → List ℕ → Heap → Heap
each_at f i [] h = h
each_at f i (r ∷ rs) h = each_at f (suc i) rs (on r (f i) h)

unfoldable pub make_requests : (ℕ → ℕ) → ℕ → List ℕ → Heap → List TaskRequest
make_requests clock i [] h = []
make_requests clock i (r ∷ rs) h =
    record {
      task_id = (h r).task_id;
      input = (h r).input_data;
      remaining = remaining_seconds (h r) (clock i);
    }
    ∷ make_requests clock (suc i) rs h

-- `max(remaining_times)`, `none` if no task has a deadline.
unfoldable pub longest : List TaskRequest → Option ℕ
longest [] = none
longest (q ∷ qs) = elim q.remaining [
  | none ↦ longest qs
  | some t ↦ elim (longest qs) [ none ↦ some t | some u ↦ some (max t u) ]
]

unfoldable pub rpc_timeout : List TaskRequest → ℕ
unfolding longest
rpc_timeout qs = elim (longest qs) [ none ↦ 35000 | some t ↦ t ]

-- `task_map.get(id)`: of two tasks with one id the later stays in the map.
unfoldable pub find_task : String → List ℕ → Heap → Option ℕ
find_task id [] h = none
find_task id (r ∷ rs) h =
    let rest = find_task id rs h in
    elim rest [ some q ↦ some q | none ↦ if str_eq (h r).task_id id then some r else none ]

-- `result.error_code or None`
abbrev pub code_or_none : String → Option String
code_or_none s = if str_eq s "" then none else some s

abbrev pub is_done : TaskStatus → Bool
is_done done = true
is_done _ = false

-- Durable tasks that the response leaves out fail, and are retried by their own gateway.
unfoldable pub fail_omitted : (ℕ → Instant) → ℕ → List ℕ → Heap → Heap
unfolding is_durable
fail_omitted clock i [] h = h
fail_omitted clock i (r ∷ rs) h = fail_omitted clock (suc i) rs (
    if is_durable (h r).input_data && not (is_terminal_at h r)
    then on r (mark_failed "worker omitted task result" (some "transport_error") (clock i).wall) h
    else h)

-- `retry_allowed` in the handler of `RpcError`.
unfoldable pub may_retry : Readings → StatusCode → Bool
may_retry e unavailable = not e.stop_again || e.stop_after && e.policy_after
may_retry e cancelled = e.stop_after && e.policy_after
may_retry e _ = false

abbrev pub fail_late : (ℕ → Instant) → ℕ → Task → Task
fail_late clock i =
    mark_failed "request deadline exceeded" (some "deadline_exceeded") (clock i).wall

-- Every task of the batch fails at its deadline.
abbrev pub fail_expired : (ℕ → Instant) → List ℕ → Heap → Heap
fail_expired clock = each_at (fail_late clock) 0

module _ {P : Type 0} where
  abbrev pub with_heap : Site P → Heap → Site P
  with_heap s h = record s { heap = h }

  -- `mark_done`, and the count of a retried task that is done.
  unfoldable pub complete : ℕ → Value → ℕ → Site P → Site P
  complete r v wall s =
      let h = on r (mark_done v wall) s.heap in
      record s {
        heap = h;
        retry_completions =
            if not ((h r).retry_count == 0) && is_done (h r).status
            then s.retry_completions + 1
            else s.retry_completions;
      }

  -- One result for the task `r`; a message is the `ValueError` of a text that is no JSON.
  abbrev pub store_result :
      ℕ → Instant → TaskResult → Bool → Parsed → Site P → Option String × Site P
  store_result r t x true (parsed v) s = (none, complete r v t.wall s)
  store_result r t x true (malformed message) s = (some message, s)
  store_result r t x false _ s =
      (none, with_heap s (on r (mark_failed x.error (code_or_none x.error_code) t.wall) s.heap))

  -- A result for an unknown task is passed over.
  abbrev pub apply_result : Option ℕ → Instant → TaskResult → Site P → Option String × Site P
  apply_result none t x s = (none, s)
  apply_result (some r) t x s = store_result r t x x.success x.result_json s

  -- The loop over `response.results`, which a `ValueError` breaks off.
  unfoldable pub apply_results :
      (ℕ → Instant) → ℕ → List ℕ → List TaskResult → Site P → Option String × Site P
  unfolding complete find_task
  apply_results clock i batch [] s = (none, s)
  apply_results clock i batch (x ∷ xs) s =
      let (broken, s') = apply_result (find_task x.task_id batch s.heap) (clock i) x s in
      elim broken [
        | some message ↦ (some message, s')
        | none ↦ apply_results clock (suc i) batch xs s'
      ]

  -- The end of `_finish_or_retry`, after the handler was asked.
  abbrev pub after_handoff : ℕ → String → Instant → Site P → Handoff × P × Heap → Site P
  after_handoff r error t s (accepted, p, h) = record s { pool = p; heap = h }
  after_handoff r error t s (_, p, h) = record s {
    pool = p;
    heap = on r (mark_failed error none t.wall) h;
  }

  module _ (retry_handler : ℕ → Instant → P → Heap → Handoff × P × Heap) where
    unfoldable pub finish_or_retry : String → Bool → Instant → ℕ → Site P → Site P
    unfolding is_durable
    finish_or_retry error retry_allowed t r s =
        if is_terminal_at s.heap r
        then s
        else if is_expired (s.heap r) t.monotonic
        then with_heap s (
            on r (mark_failed "request deadline exceeded" (some "deadline_exceeded") t.wall) s.heap)
        else if is_durable (s.heap r).input_data
        then with_heap s (on r (mark_failed error (some "transport_error") t.wall) s.heap)
        else if retry_allowed
        then after_handoff r error t s (retry_handler r t s.pool s.heap)
        else with_heap s (on r (mark_failed error none t.wall) s.heap)

    unfoldable pub finish_all : String → Bool → (ℕ → Instant) → ℕ → List ℕ → Site P → Site P
    unfolding finish_or_retry
    finish_all error retry_allowed clock i [] s = s
    finish_all error retry_allowed clock i (r ∷ rs) s =
        finish_all error retry_allowed clock (suc i) rs
          (finish_or_retry error retry_allowed (clock i) r s)

    module _ (e : Readings) where
      abbrev pub after_results : List ℕ → Option String × Site P → Site P
      after_results batch (none, s) = with_heap s (fail_omitted e.omit_clock 0 batch s.heap)
      after_results batch (some message, s) =
          finish_all message (e.stop_after && e.policy_after) e.end_clock 0 batch s

      unfoldable pub reconcile : List ℕ → RpcOutcome → Site P → Site P
      unfolding finish_all may_retry apply_results fail_omitted
      reconcile batch (response results) s =
          after_results batch (apply_results e.result_clock 0 batch results s)
      reconcile batch (rpc_error deadline_exceeded message) s =
          with_heap s (fail_expired e.end_clock batch s.heap)
      reconcile batch (rpc_error code message) s =
          finish_all message (may_retry e code) e.end_clock 0 batch s
      reconcile batch (other_error value_error message) s =
          finish_all message (e.stop_after && e.policy_after && value_error) e.end_clock 0 batch s

      module _ (rpc : List TaskRequest → ℕ → Site P → RpcOutcome × Site P) where
        -- The gauge of active RPCs around the call is that of the proxy, `begin_rpc` and `end_rpc`.
        unfoldable pub dispatch : List ℕ → Site P → Site P
        unfolding reconcile make_requests rpc_timeout
        dispatch batch s =
            let h = each_at (λ i. mark_processing (e.start_clock i).wall) 0 batch s.heap in
            let requests = make_requests e.budget_clock 0 batch h in
            if leb (rpc_timeout requests) 0
            then with_heap s (fail_expired e.end_clock batch h)
            else (let (outcome, s') = rpc requests (rpc_timeout requests) (with_heap s h) in
                reconcile batch outcome s')

        -- `_process` from the live tasks on.
        unfoldable pub process_live : List ℕ → Site P → Site P
        unfolding dispatch
        process_live live s =
            if is_empty live
            then s
            else if e.stop_before
            then finish_all "worker removed" e.policy_before e.end_clock 0 live s
            else dispatch live s

        unfoldable pub process : List ℕ → Site P → Site P
        unfolding split_live process_live
        process batch s =
            let (live, h) = split_live e.live_clock 0 batch s.heap in
            process_live live (with_heap s h)
