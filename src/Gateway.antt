-- ===== src/Gateway.antt =====
-- system/job_gateway.py: `JobGateway`, between the job store, the queue and the task objects. The
-- lock makes `submit` and `poll` one step each; the SHA-256 fingerprint of a spec, the fresh
-- attempt identities, and the clocks are arguments. A failing database is not modelled.
pub mod Bound
use latency_aware_inference.Common.{
  ℕ, zero, suc, ◌+◌, ◌-◌, ◌*◌, Bool, true, false, not, ◌&&◌, ◌||◌, Option, none, some, String,
  str_eq, List, [], ◌∷◌, ◌++◌, length, leb, ltb, ◌==◌, if◌then◌else◌,
}
use latency_aware_inference.Task.{
  Task, TaskStatus, pending, processing, done, failed, new_task, is_expired, mark_failed,
}
use latency_aware_inference.Task.Payload.{Value, int, str, obj, field, end}
use latency_aware_inference.Common.Int.{pos}
use latency_aware_inference.Task.Heap.{Heap, write, on}
use latency_aware_inference.Queue.{TaskQueue, put}
use latency_aware_inference.Proxy.Process.{Instant}
use latency_aware_inference.JobStore.{
  Job, JobError, Table, claim, renew, complete, defer, expire_deadlines,
}
use latency_aware_inference.JobStore

-- `RETRYABLE_ERRORS`
unfoldable pub is_retryable : String → Bool
is_retryable code =
    str_eq code "overloaded"
    || str_eq code "worker_busy"
    || str_eq code "already_running"
    || str_eq code "transport_error"
    || str_eq code "in_progress"
    || str_eq code "storage_unavailable"
    || str_eq code "socket_unavailable"
    || str_eq code "storage_error"
    || str_eq code "worker_unavailable"
    || str_eq code "worker_error"

pub record Settings : Type 0 where
  pub lease_seconds : ℕ
  pub renew_interval : ℕ
  pub retry_seconds : ℕ
  pub poll_interval : ℕ
  pub max_inflight : ℕ
  pub fingerprint : Value → String

-- The checks of `__init__`; intervals are in milliseconds, as the clock.
unfoldable pub accepts : Settings → Bool
accepts c =
    ltb 0 c.lease_seconds
    && ltb c.renew_interval (c.lease_seconds * 1000)
    && leb 1 c.max_inflight
    && ltb 0 c.retry_seconds
    && ltb 0 c.poll_interval

-- An entry of `_active`: the job, its task, its attempt and the time of its last renewal.
pub record Active : Type 0 where
  pub job_id : ℕ
  pub task : ℕ
  pub attempt_id : ℕ
  pub renewed : ℕ

pub record Gateway : Type 0 where
  pub active : List Active
  pub stopped : Bool
  pub table : Table
  pub queue : TaskQueue
  pub heap : Heap
  pub next_task : ℕ

-- The readings of one round: the database's clock, the two clocks, the lock and UUID of a claim.
pub record Round : Type 0 where
  pub database : ℕ
  pub instant : Instant
  pub locked : ℕ → Bool
  pub attempt : ℕ
  pub task_id : String

-- `self._active[job_id] = ...`
abbrev pub set_active : Active → List Active → List Active
set_active a [] = a ∷ []
set_active a (b ∷ bs) = if b.job_id == a.job_id then a ∷ bs else b ∷ set_active a bs

abbrev pub spec_error : JobError
spec_error = record { code = "invalid_spec"; message = "spec fingerprint mismatch" }

abbrev pub full_error : JobError
full_error = record { code = "overloaded"; message = "task queue is full" }

-- The task of a leased row; its deadline is the row's, by the wall clock of the gateway.
unfoldable pub job_task : Round → Job → Task
unfolding new_task
job_task e j =
    new_task
      (obj (
        field "kind" (str "synthx_v73")
          (field "spec" j.spec (field "attempt_id" (int (pos e.attempt)) end))))
      e.task_id e.instant.wall (some (e.instant.monotonic + (j.deadline_at - e.instant.wall)))

abbrev pub queued : Settings → Round → ℕ → Job → Gateway → Option TaskQueue → Gateway
queued c e id j g none = record g {
  table = (defer e.database id e.attempt full_error c.retry_seconds g.table).1;
}
queued c e id j g (some q) = record g {
  queue = q;
  heap = write g.next_task (job_task e j) g.heap;
  next_task = g.next_task + 1;
  active =
      set_active
        (record {
          job_id = id;
          task = g.next_task;
          attempt_id = e.attempt;
          renewed = e.instant.monotonic;
        })
        g.active;
}

-- `_enqueue`, on the row that a claim with the round's attempt returned.
unfoldable pub enqueue : Settings → Round → ℕ → Job → Gateway → Gateway
unfolding complete defer put job_task
enqueue c e id j g =
    if not (str_eq (c.fingerprint j.spec) j.spec_sha256)
    then record g { table = (complete e.database id e.attempt none (some spec_error) g.table).1 }
    else queued c e id j g (put g.queue g.next_task)

abbrev pub claimed : Settings → Round → Gateway → Option (ℕ × Job) × Table → Gateway
claimed c e g (none, t) = record g { table = t }
claimed c e g (some (id, j), t) = enqueue c e id j (record g { table = t })

-- `submit`; the first component is the row it returns, `none` for a KeyError.
unfoldable pub submit : Settings → Round → ℕ → Gateway → Option Job × Gateway
unfolding enqueue claim JobStore.get
submit c e id g = elim (JobStore.get g.table id) [
  | none ↦ (none, g)
  | some row ↦
      let g' =
        if ltb (length g.active) c.max_inflight && not g.stopped
        then claimed c e g (claim e.locked e.database (some id) e.attempt c.lease_seconds g.table)
        else g in
      (JobStore.get g'.table id, g')
]

-- `task.error_code or "worker_error"`, and so for the message.
abbrev pub or_default : String → Option String → String
or_default d none = d
or_default d (some s) = if str_eq s "" then d else s

-- What an iteration of `poll` does with an entry: it goes, or stays as it is given.
abbrev pub renewed : Settings → Round → Active → Gateway → Bool × Table → Option Active × Gateway
renewed c e a g (true, t) =
    (some (record a { renewed = e.instant.monotonic }), record g { table = t })
renewed c e a g (false, t) = (
  none,
  record g {
    table = t;
    heap = on a.task (mark_failed "execution lease lost" (some "lease_lost") e.instant.wall) g.heap;
  },
)

abbrev pub by_status : Settings → Round → Active → Gateway → TaskStatus → Option Active × Gateway
by_status c e a g done = (
  none,
  record g {
    table = (complete e.database a.job_id a.attempt_id (g.heap a.task).result none g.table).1;
  },
)
by_status c e a g failed =
    let code = or_default "worker_error" (g.heap a.task).error_code in
    let message = or_default "inference failed" (g.heap a.task).error in
    (
      none,
      record g {
        table =
            if is_retryable code
            then (defer e.database a.job_id a.attempt_id (record { code = code; message = message })
                c.retry_seconds g.table).1
            else (complete e.database a.job_id a.attempt_id none
                (some (record { code = code; message = message })) g.table).1;
      },
    )
by_status c e a g pending =
    if leb c.renew_interval (e.instant.monotonic - a.renewed)
    then renewed c e a g (renew e.database a.job_id a.attempt_id c.lease_seconds g.table)
    else (some a, g)
by_status c e a g processing =
    if leb c.renew_interval (e.instant.monotonic - a.renewed)
    then renewed c e a g (renew e.database a.job_id a.attempt_id c.lease_seconds g.table)
    else (some a, g)

unfoldable pub poll_entry : Settings → Round → Active → Gateway → Option Active × Gateway
unfolding is_retryable complete defer renew is_expired mark_failed
poll_entry c e a g =
    let h =
      if is_expired (g.heap a.task) e.instant.monotonic
      then on a.task (mark_failed "job deadline exceeded" (some "deadline_exceeded") e.instant.wall)
          g.heap
      else g.heap in
    by_status c e a (record g { heap = h }) (h a.task).status

abbrev pub remaining : Option Active → List Active → List Active
remaining none rest = rest
remaining (some a) rest = a ∷ rest

-- The loop over the entries; its first component is what `_active` is after it.
unfoldable pub poll_entries :
    Settings → (ℕ → Round) → ℕ → List Active → Gateway → List Active × Gateway
unfolding poll_entry
poll_entries c e i [] g = ([], g)
poll_entries c e i (a ∷ rest) g =
    let (kept, g') = poll_entry c (e i) a g in
    let (others, g'') = poll_entries c e (suc i) rest g' in (remaining kept others, g'')

abbrev pub admitted : Settings → Round → Gateway → Option (ℕ × Job) × Table → Gateway → Gateway
admitted c e g (none, t) rest = record g { table = t }
admitted c e g (some row, t) rest = rest

-- The loop of claims, at most `n` rounds.
unfoldable pub admit : Settings → (ℕ → Round) → ℕ → ℕ → Gateway → Gateway
unfolding enqueue claim
admit c e i zero g = g
admit c e i (suc n) g =
    let row = claim (e i).locked (e i).database none (e i).attempt c.lease_seconds g.table in
    let rest = admit c e (suc i) n (claimed c (e i) g row) in admitted c (e i) g row rest

-- `poll`, with the rounds of its two loops.
unfoldable pub poll : Settings → ℕ → (ℕ → Round) → (ℕ → Round) → Gateway → Gateway
unfolding poll_entries admit expire_deadlines
poll c now e f g =
    let start = record g { table = (expire_deadlines now g.table).1 } in
    let (active, polled) = poll_entries c e 0 g.active start in
    admit c f 0 (c.max_inflight - length active) (record polled { active = active })
