-- ===== src/JobStore.antt =====
-- system/job_store.py: `JobStore`, over the table synthx.inference_jobs. A statement is one step
-- on the table; `now()` is its transaction's clock reading, in milliseconds, as are the leases.
-- UUIDs are numbers, of which only equality and order are used.
pub mod Calls
pub mod Candidate
pub mod Lease
use latency_aware_inference.Common.{
  ℕ, ◌+◌, ◌*◌, ◌<◌, Bool, true, false, not, ◌&&◌, ◌||◌, Option, none, some, String, List, [], ◌∷◌,
  ltb, leb, ◌==◌, if◌then◌else◌,
}
use latency_aware_inference.Task.Payload.{Value}
use Prim.Native.Nat.{min}

pub data JobStatus : Type 0 where
  queued running succeeded failed : JobStatus

-- The JSON object of the column `error`.
pub record JobError : Type 0 where
  pub code : String
  pub message : String

-- A row; its primary key `job_id` is the table's index.
pub record Job : Type 0 where
  pub spec : Value
  pub spec_sha256 : String
  pub status : JobStatus
  pub attempt_id : Option ℕ
  pub attempts : ℕ
  pub lease_until : Option ℕ
  pub next_attempt_at : ℕ
  pub deadline_at : ℕ
  pub created_at : ℕ
  pub updated_at : ℕ
  pub result : Option Value
  pub error : Option JobError

-- The table: its keys, and the row of a key.
pub record Table : Type 0 where
  pub ids : List ℕ
  pub rows : ℕ → Option Job

abbrev pub set_row : ℕ → Job → Table → Table
set_row id job t = record t { rows = λ k. if k == id then some job else t.rows k }

unfoldable pub get : Table → ℕ → Option Job
get t id = t.rows id

abbrev pub same_id : Option ℕ → ℕ → Bool
same_id none id = false
same_id (some a) id = a == id

-- `lease_until <= now()`, which SQL's null does not satisfy.
abbrev pub lapsed : ℕ → Option ℕ → Bool
lapsed now none = false
lapsed now (some l) = leb l now

-- `lease_until > now()`
abbrev pub live : ℕ → Option ℕ → Bool
live now none = false
live now (some l) = ltb now l

abbrev pub is_queued : JobStatus → Bool
is_queued queued = true
is_queued running = false
is_queued succeeded = false
is_queued failed = false

abbrev pub is_running : JobStatus → Bool
is_running queued = false
is_running running = true
is_running succeeded = false
is_running failed = false

-- The condition of `claim` on a row.
unfoldable pub is_due : ℕ → Job → Bool
is_due now j =
    ltb now j.deadline_at
    && (is_queued j.status && leb j.next_attempt_at now
        || is_running j.status && lapsed now j.lease_until)

-- `ORDER BY next_attempt_at, created_at, job_id`
unfoldable pub precedes : ℕ → Job → ℕ → Job → Bool
precedes a j b k =
    ltb j.next_attempt_at k.next_attempt_at
    || j.next_attempt_at == k.next_attempt_at
      && (ltb j.created_at k.created_at || j.created_at == k.created_at && leb a b)

-- `(%s IS NULL OR job_id=%s)`
abbrev pub is_wanted : Option ℕ → ℕ → Bool
is_wanted none id = true
is_wanted (some a) id = id == a

abbrev pub first_of : ℕ → Job → Option (ℕ × Job) → ℕ × Job
first_of id j none = (id, j)
first_of id j (some (k, l)) = if precedes id j k l then (id, j) else (k, l)

-- `locked` says which rows another transaction has locked: `SKIP LOCKED` passes over them.
abbrev pub candidate : (ℕ → Bool) → Option ℕ → ℕ → (ℕ → Option Job) → List ℕ → Option (ℕ × Job)
candidate locked wanted now rows [] = none
candidate locked wanted now rows (id ∷ ids) =
    let rest = candidate locked wanted now rows ids in
    elim (rows id) [
      | none ↦ rest
      | some j ↦
          if is_wanted wanted id && not (locked id) && is_due now j
          then some (first_of id j rest)
          else rest
    ]

unfoldable pub leased : ℕ → ℕ → ℕ → Job → Job
leased now attempt lease_seconds j = record j {
  status = running;
  attempt_id = some attempt;
  attempts = j.attempts + 1;
  lease_until = some (min (now + lease_seconds * 1000) j.deadline_at);
  updated_at = now;
}

unfoldable pub claim : (ℕ → Bool) → ℕ → Option ℕ → ℕ → ℕ → Table → Option (ℕ × Job) × Table
unfolding leased
claim locked now wanted attempt lease_seconds t = elim (candidate locked wanted now t.rows t.ids) [
  | none ↦ (none, t)
  | some (id, j) ↦
      let job = leased now attempt lease_seconds j in (some (id, job), set_row id job t)
]

-- The fence of `renew`, `complete` and `defer`.
unfoldable pub holds : ℕ → ℕ → Job → Bool
holds attempt now j =
    same_id j.attempt_id attempt
    && is_running j.status
    && live now j.lease_until
    && ltb now j.deadline_at

-- A fenced update; the first component is `rowcount == 1`.
abbrev pub fenced : (Job → Job) → ℕ → ℕ → ℕ → Table → Bool × Table
fenced change now id attempt t = elim (t.rows id) [
  | none ↦ (false, t)
  | some j ↦ if holds attempt now j then (true, set_row id (change j) t) else (false, t)
]

unfoldable pub renew : ℕ → ℕ → ℕ → ℕ → Table → Bool × Table
unfolding holds
renew now id attempt lease_seconds t =
    fenced
      (λ j. record j {
        lease_until = some (min (now + lease_seconds * 1000) j.deadline_at);
        updated_at = now;
      })
      now id attempt t

abbrev pub outcome : Option JobError → JobStatus
outcome none = succeeded
outcome (some e) = failed

unfoldable pub complete : ℕ → ℕ → ℕ → Option Value → Option JobError → Table → Bool × Table
unfolding holds
complete now id attempt result error t =
    fenced
      (λ j. record j {
        status = outcome error;
        result = result;
        error = error;
        lease_until = none;
        updated_at = now;
      })
      now id attempt t

unfoldable pub defer : ℕ → ℕ → ℕ → JobError → ℕ → Table → Bool × Table
unfolding holds
defer now id attempt error retry_seconds t =
    fenced
      (λ j. record j {
        status = queued;
        lease_until = none;
        next_attempt_at = now + retry_seconds * 1000;
        error = some error;
        updated_at = now;
      })
      now id attempt t

abbrev pub is_overdue : ℕ → Job → Bool
is_overdue now j = (is_queued j.status || is_running j.status) && leb j.deadline_at now

abbrev pub expired_row : ℕ → Job → Job
expired_row now j =
    if is_overdue now j
    then record j {
      status = failed;
      lease_until = none;
      error = some (record { code = "deadline_exceeded"; message = "job deadline exceeded" });
      updated_at = now;
    }
    else j

abbrev pub count_overdue : ℕ → (ℕ → Option Job) → List ℕ → ℕ
count_overdue now rows [] = 0
count_overdue now rows (id ∷ ids) =
    let rest = count_overdue now rows ids in
    elim (rows id) [ none ↦ rest | some j ↦ if is_overdue now j then rest + 1 else rest ]

unfoldable pub expire_deadlines : ℕ → Table → ℕ × Table
expire_deadlines now t = (
  count_overdue now t.rows t.ids,
  record t { rows = λ k. elim (t.rows k) [ none ↦ none | some j ↦ some (expired_row now j) ] },
)
