-- ===== src/Task.antt =====
-- system/task.py. A clock reading is a whole number of milliseconds; `time.monotonic` and
-- `time.time` are arguments of the operations that read them. `threading.Lock` makes each
-- operation one step.
pub mod Payload
pub mod Lifecycle
pub mod Retry
pub mod Heap
use latency_aware_inference.Common.{
  ℕ, ◌+◌, ◌-◌, Bool, true, false, ◌||◌, Option, none, some, String, leb, if◌then◌else◌,
}
use latency_aware_inference.Common.Int.{ℤ, sub_ℕ}
use Payload.{Value}
use mathlib.Core.Option

pub data TaskStatus : Type 0 where
  pending processing done failed : TaskStatus

pub record Task : Type 0 where
  pub input_data : Value
  pub task_id : String
  pub creation_time : ℕ
  pub status : TaskStatus
  pub result : Option Value
  pub error : Option String
  pub error_code : Option String
  pub start_time : Option ℕ
  pub end_time : Option ℕ
  pub deadline : Option ℕ
  pub retry_count : ℕ

-- `Task(input_data=..., deadline=...)`: the other fields have their defaults.
unfoldable pub new_task : Value → String → ℕ → Option ℕ → Task
new_task input id now limit = record {
  input_data = input;
  task_id = id;
  creation_time = now;
  status = pending;
  result = none;
  error = none;
  error_code = none;
  start_time = none;
  end_time = none;
  deadline = limit;
  retry_count = 0;
}

-- `status in (DONE, FAILED)`
abbrev pub is_terminal : TaskStatus → Bool
is_terminal pending = false
is_terminal processing = false
is_terminal done = true
is_terminal failed = true

-- The age may be negative: the wall clock can be set back.
unfoldable pub age_ms : Task → ℕ → ℤ
age_ms t now = sub_ℕ now t.creation_time

unfoldable pub processing_latency_ms : Task → Option ℤ
processing_latency_ms t = elim t.start_time [
  | none ↦ none
  | some s ↦ elim t.end_time [ none ↦ none | some e ↦ some (sub_ℕ e s) ]
]

-- `max(0.0, deadline - now)` is the subtraction that stops at 0.
unfoldable pub remaining_seconds : Task → ℕ → Option ℕ
remaining_seconds t now = elim t.deadline [ none ↦ none | some d ↦ some (d - now) ]

unfoldable pub is_expired : Task → ℕ → Bool
unfolding remaining_seconds
is_expired t now = elim (remaining_seconds t now) [ none ↦ false | some r ↦ leb r 0 ]

-- `if self.start_time is None: self.start_time = time.time()`
abbrev pub first_start : Option ℕ → ℕ → Option ℕ
first_start none now = some now
first_start (some s) now = some s

unfoldable pub mark_processing : ℕ → Task → Task
mark_processing now t =
    if is_terminal t.status
    then t
    else record t { start_time = first_start t.start_time now; status = processing }

unfoldable pub mark_done : Value → ℕ → Task → Task
mark_done v now t =
    if is_terminal t.status
    then t
    else record t { result = some v; end_time = some now; status = done }

unfoldable pub mark_failed : String → Option String → ℕ → Task → Task
mark_failed message code now t =
    if is_terminal t.status
    then t
    else record t { error = some message; error_code = code; end_time = some now; status = failed }

unfoldable pub try_reserve_retry : ℕ → Task → Bool × Task
unfolding is_expired
try_reserve_retry now t =
    if is_terminal t.status
    then (false, t)
    else if is_expired t now || leb 1 t.retry_count
    then (false, t)
    else (true, record t { retry_count = t.retry_count + 1 })
