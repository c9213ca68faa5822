-- ===== src/V73/Run.antt =====
-- system/worker_v73.py: `V73Worker.process`, `_execute`, `_call_daemon`, `_recover_response`. A job
-- has its state file and its output directory; the lock of the job is held from before the state
-- is read until the execution ends or its process dies, so that the executions of a job are one
-- after another. What the host answers to an execution, where it dies included, is an argument.
use latency_aware_inference.Common.{
  ℕ, ◌+◌, Bool, true, false, not, ◌&&◌, ◌||◌, Option, none, some, String, str_append, str_eq, leb,
  if◌then◌else◌,
}
use latency_aware_inference.Common.Result.{Result, ok, raised}
use latency_aware_inference.Task.Payload.{Value, Fields, str, obj, field, end, get}
use latency_aware_inference.V73.{WorkerError, worker_error}
use latency_aware_inference.V73.Payload.{is_text, text_at, as_object}

-- A response of the daemon: `ok`, and what it has under `result`.
pub record Response : Type 0 where
  pub accepted : Bool
  pub report : Option Value

-- The file state.json; a key that is absent is `none`, or false for `running`.
pub record JobState : Type 0 where
  pub fingerprint : Option String
  pub output : Option String
  pub running : Bool
  pub response : Option Response
  pub result : Option Value
  pub error : Option WorkerError

abbrev pub blank : JobState
blank = record {
  fingerprint = none;
  output = none;
  running = false;
  response = none;
  result = none;
  error = none;
}

abbrev pub is_some : {A : Type 0} → Option A → Bool
is_some none = false
is_some (some a) = true

-- `not state`, of a dict that is empty until it is first written with a fingerprint.
abbrev pub is_blank : JobState → Bool
is_blank st = not (
    is_some st.fingerprint
    || is_some st.output
    || st.running
    || is_some st.response
    || is_some st.result
    || is_some st.error)

-- The file, and how many requests may have reached the daemon.
pub record Disk : Type 0 where
  pub state : JobState
  pub requests : ℕ

-- How an execution ends: with a result, a `WorkerError`, another exception, or with its process.
pub data Outcome : Type 0 where
  returned : Value → Outcome
  error : WorkerError → Outcome
  unexpected : Outcome
  died : Outcome

-- How `_write_json` ends; the file is replaced as a whole or not at all.
pub data Write : Type 0 where
  written write_failed died_before died_after : Write

-- How the exchange with the daemon ends once the request is on its way.
pub data Reply : Type 0 where
  answered : Response → Reply
  unresolved lost : Reply

-- One reading of the clock and of the call's context.
pub record Watch : Type 0 where
  pub now : ℕ
  pub is_active : Bool

-- `_check_active`
abbrev pub is_late : Option ℕ → ℕ → Bool
is_late none now = false
is_late (some d) now = leb d now

unfoldable pub is_in_time : Option ℕ → Watch → Bool
is_in_time deadline w = not (is_late deadline w.now) && w.is_active

abbrev pub late : WorkerError
late = worker_error "deadline_exceeded" "request deadline exceeded"

abbrev pub retry_later : String → String → WorkerError
retry_later code message = record { code = code; message = message; retryable = true }

-- What the host answers to one call of `process`.
pub record Host : Type 0 where
  pub first : Watch
  pub downloaded : Watch
  pub waited : Watch
  pub job_free : Bool
  pub model_free : Bool
  pub path_safe : Bool
  pub output_exists : Bool
  pub report_safe : Bool
  pub report_exists : Bool
  pub report : Option Value
  pub first_write : Write
  pub running_write : Write
  pub response_write : Write
  pub result_write : Write
  pub error_write : Write
  pub download : Result WorkerError (Unit {0})
  pub connects : Bool
  pub reply : Reply
  pub upload : Response → Result WorkerError Value

-- `_write_json`, then what follows it; `handled` is what an exception of it becomes.
abbrev pub write : Write → Outcome → JobState → Disk → (Disk → Outcome × Disk) → Outcome × Disk
write written handled st d rest = rest (record d { state = st })
write write_failed handled st d rest = (handled, d)
write died_before handled st d rest = (died, d)
write died_after handled st d rest = (died, record d { state = st })

-- The handler of `WorkerError` in `_execute`: a final error is recorded.
unfoldable pub fail : Write → WorkerError → JobState → Disk → Outcome × Disk
fail w e st d =
    if e.retryable || str_eq e.code "deadline_exceeded"
    then (error e, d)
    else write w unexpected (record st { error = some e }) d (λ d'. (error e, d'))

abbrev pub finish : Host → JobState → Result WorkerError Value → Disk → Outcome × Disk
finish h st (ok v) d =
    write h.result_write unexpected (record st { result = some v }) d (λ d'. (returned v, d'))
finish h st (raised e) d = fail h.error_write e st d

-- The exchange with the daemon and the record of its response.
abbrev pub exchange : Host → JobState → Reply → Disk → Outcome × Disk
exchange h st (answered r) d =
    let st' = record st { running = false; response = some r } in
    write h.response_write unexpected st' d (finish h st' (h.upload r))
exchange h st unresolved d =
    fail h.error_write (retry_later "already_running" "daemon result is unresolved")
      (record st { running = true }) d
exchange h st lost d = (died, d)

-- `_call_daemon`: the uncertainty is on disk before any byte of the request is sent.
unfoldable pub call_daemon : Host → JobState → Disk → Outcome × Disk
unfolding fail
call_daemon h st d =
    let unavailable = retry_later "worker_unavailable" "model socket is unavailable" in
    if not h.connects
    then fail h.error_write unavailable st d
    else write h.running_write (error unavailable) (record st { running = true }) d
        (λ d'.
          exchange h (record st { running = true }) h.reply
            (record d' { requests = d'.requests + 1 }))

abbrev pub after_download :
    Host → Option ℕ → JobState → Result WorkerError (Unit {0}) → Disk → Outcome × Disk
after_download h deadline st (raised e) d = fail h.error_write e st d
after_download h deadline st (ok _) d =
    if is_in_time deadline h.downloaded then call_daemon h st d else fail h.error_write late st d

-- The part of `_execute` after its first write.
abbrev pub infer : Host → Option ℕ → JobState → Option Response → Disk → Outcome × Disk
infer h deadline st none d = after_download h deadline st h.download d
infer h deadline st (some r) d = finish h st (h.upload r) d

unfoldable pub execute : Host → Option ℕ → String → String → JobState → Disk → Outcome × Disk
unfolding fail call_daemon is_in_time
execute h deadline fingerprint out st d =
    let st' = record st { fingerprint = some fingerprint; output = some out } in
    write h.first_write unexpected st' d (infer h deadline st' st'.response)

-- `report.get('status') in ('completed', 'no_usable_note')`
abbrev pub is_complete : Option String → Bool
is_complete none = false
is_complete (some s) = str_eq s "completed" || str_eq s "no_usable_note"

abbrev pub or_empty : Option Value → Value
or_empty none = obj end
or_empty (some v) = v

abbrev pub recovered : String → Option Fields → Option Response
recovered out none = none
recovered out (some fields) =
    if is_complete (text_at "status" fields)
    then some (record {
      accepted = true;
      report = some (
          obj (
            field "status" (str (elim (text_at "status" fields) [ none ↦ "" | some s ↦ s ])) (
              field "output" (str out) (
                field "report" (str (str_append out "/result.json"))
                  (field "artifacts" (or_empty (get "artifacts" fields)) end)))));
    })
    else none

-- `_recover_response`, of a path that is safe.
unfoldable pub recover : Host → JobState → String → Option Response
recover h st out =
    if not st.running || not (is_text st.output out)
    then none
    else if not h.report_exists
    then none
    else elim h.report [ none ↦ none | some v ↦ recovered out (as_object v) ]

abbrev pub not_resolved : WorkerError
not_resolved = retry_later "already_running" "existing model execution is unresolved"

abbrev pub unsafe : WorkerError
unsafe = worker_error "invalid_artifacts" "local path is outside deployment or contains a symlink"

-- The state to execute from, or the error that ends the call.
abbrev pub resumed : Option Response → JobState → Result WorkerError JobState
resumed none st = raised not_resolved
resumed (some r) st = ok (record st { response = some r; running = false })

unfoldable pub resolve : Host → String → JobState → Result WorkerError JobState
unfolding recover
resolve h out st =
    if is_some st.response || not (st.running || h.output_exists)
    then ok st
    else if st.running && is_text st.output out && not h.report_safe
    then raised unsafe
    else resumed (recover h st out) st

-- The wait of the caller for the collector, which goes on when the caller stops waiting.
abbrev pub collected : Outcome → Outcome
collected unexpected = error (retry_later "worker_error" "unexpected worker failure")
collected o = o

unfoldable pub reported : Host → Option ℕ → Outcome × Disk → Outcome × Disk
unfolding is_in_time
reported h deadline (died, d) = (died, d)
reported h deadline (o, d) =
    if is_in_time deadline h.waited then (collected o, d) else (error late, d)

abbrev pub started :
    Host → Option ℕ → String → String → Result WorkerError JobState → Disk → Outcome × Disk
started h deadline fingerprint out (raised e) d = (error e, d)
started h deadline fingerprint out (ok st) d =
    if not h.model_free
    then (error (retry_later "worker_busy" "model worker is busy"), d)
    else reported h deadline (execute h deadline fingerprint out st d)

abbrev pub replayed : WorkerError → WorkerError
replayed e = worker_error e.code e.message

-- The part of `process` under the job's lock.
abbrev pub decide :
    Host → Option ℕ → String → String → Option Value → Option WorkerError → Disk → Outcome × Disk
decide h deadline fingerprint out (some v) failed d = (returned v, d)
decide h deadline fingerprint out none (some e) d = (error (replayed e), d)
decide h deadline fingerprint out none none d =
    if not h.path_safe
    then (error unsafe, d)
    else started h deadline fingerprint out (resolve h out d.state) d

-- `process` of a validated spec, to the end of its execution.
unfoldable pub process : Host → Option ℕ → String → String → Disk → Outcome × Disk
unfolding is_in_time resolve execute reported
process h deadline fingerprint out d =
    if not (is_in_time deadline h.first)
    then (error late, d)
    else if not h.job_free
    then (error (retry_later "already_running" "job is already running"), d)
    else if not (is_blank d.state) && not (is_text d.state.fingerprint fingerprint)
    then (error (worker_error "spec_conflict" "job spec differs from its immutable fingerprint"), d)
    else decide h deadline fingerprint out d.state.result d.state.error d
