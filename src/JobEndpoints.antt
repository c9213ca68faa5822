-- ===== src/JobEndpoints.antt =====
-- system/api_server.py: `require_jobs_auth`, `submit_job`, `get_job`, over the gateway. The job's
-- identity is the parsed UUID; whether the database answers the first statement is an argument of
-- each endpoint.
pub mod Authorization
use latency_aware_inference.Common.{
  ℕ, Bool, not, ◌||◌, Option, none, some, String, str_append, str_eq, if◌then◌else◌,
}
use latency_aware_inference.Common.Result.{Result, ok, raised, ◌>>=◌}
use latency_aware_inference.JobStore.{Job, JobStatus}
use latency_aware_inference.JobStore
use latency_aware_inference.Gateway.{Settings, Round, Gateway}
use latency_aware_inference.Gateway

-- An HTTPException.
pub record HttpError : Type 0 where
  pub status_code : ℕ
  pub detail : String

abbrev pub http : ℕ → String → HttpError
http n s = record { status_code = n; detail = s }

-- `not _jobs_token`, and `request.headers.get("Authorization", "")`
abbrev pub or_empty : Option String → String
or_empty none = ""
or_empty (some s) = s

abbrev pub matched : Option String → String → Gateway → Result HttpError Gateway
matched supplied token g =
    if not (str_eq (or_empty supplied) (str_append "Bearer " token))
    then raised (http 401 "invalid service authorization")
    else ok g

abbrev pub enabled : Option Gateway → String → Option String → Result HttpError Gateway
enabled none token supplied = raised (http 503 "durable jobs are not enabled")
enabled (some g) token supplied =
    if str_eq token ""
    then raised (http 503 "durable jobs are not enabled")
    else matched supplied token g

-- The gateway, for a request that is authorized. `none`: it has not been started.
unfoldable pub require_jobs_auth :
    Option Gateway → Option String → Option String → Result HttpError Gateway
require_jobs_auth gateway token supplied = enabled gateway (or_empty token) supplied

abbrev pub found : Option Job → Result HttpError Job
found none = raised (http 404 "job not found")
found (some row) = ok row

-- `submit_job` answers with the identity and the status of the row.
abbrev pub accepted : ℕ → Result HttpError Job → Result HttpError (ℕ × JobStatus)
accepted id (ok row) = ok (id, row.status)
accepted id (raised e) = raised e

abbrev pub submitted :
    Bool
    → Settings
    → Round
    → ℕ
    → Option Gateway
    → Result HttpError Gateway
    → Result HttpError (ℕ × JobStatus) × Option Gateway
submitted answers c e id gateway (raised x) = (raised x, gateway)
submitted answers c e id gateway (ok g) =
    let (row, g') = Gateway.submit c e id g in
    if not answers
    then (raised (http 503 "durable job admission unavailable"), gateway)
    else (accepted id (found row), some g')

unfoldable pub submit_job :
    Bool
    → Settings
    → Round
    → Option String
    → Option String
    → ℕ
    → Option Gateway
    → Result HttpError (ℕ × JobStatus) × Option Gateway
unfolding require_jobs_auth Gateway.submit
submit_job answers c e token supplied id gateway =
    submitted answers c e id gateway (require_jobs_auth gateway token supplied)

abbrev pub looked_up : Bool → ℕ → Gateway → Result HttpError Job
looked_up answers id g =
    if not answers
    then raised (http 503 "durable job lookup unavailable")
    else found (JobStore.get g.table id)

unfoldable pub get_job :
    Bool → Option String → Option String → ℕ → Option Gateway → Result HttpError Job
unfolding require_jobs_auth JobStore.get
get_job answers token supplied id gateway =
    require_jobs_auth gateway token supplied >>= looked_up answers id
