-- ===== src/Examples/Jobs.antt =====
-- The job store, on a table of one queued and one finished job.
use latency_aware_inference.Common.{
  length, ℕ, ◌≡◌, ◌+◌, ◌*◌, refl, Bool, true, false, none, some, List, [], ◌∷◌, All, ◌==◌,
  if◌then◌else◌, arith, inr, ◌⊎◌,
}
use Prim.Native.Nat.{min, ◌≤◌}
use latency_aware_inference.Task.Payload.{null}
use latency_aware_inference.JobStore.{
  Job, Table, queued, running, succeeded, claim, get, leased, candidate, is_due, precedes,
}
use latency_aware_inference.JobStore.Calls.{
  claim_call, renew_call, complete_call, expire_call, run, IsForeign,
}
use latency_aware_inference.JobStore.Lease.{claim-exclusive, run-final}
use latency_aware_inference.JobStore.Candidate.{IsBest, IsClaimable, candidate-IsBest}
use latency_aware_inference.Gateway.{Settings, Gateway, Round}
use latency_aware_inference.Gateway.Bound.{submits, polls, run-bound}
use latency_aware_inference.Gateway.Bound
use latency_aware_inference.Examples.{heap, queue, instant}
use latency_aware_inference.Common.Result.{raised}
use latency_aware_inference.JobEndpoints.{HttpError, submit_job, get_job}
use latency_aware_inference.JobEndpoints.Authorization.{IsAuthorized, endpoints-IsAuthorized}

abbrev fresh : Job
fresh = record {
  spec = null;
  spec_sha256 = "74234e98";
  status = queued;
  attempt_id = none;
  attempts = 0;
  lease_until = none;
  next_attempt_at = 5;
  deadline_at = 900000;
  created_at = 5;
  updated_at = 5;
  result = none;
  error = none;
}

abbrev finished : Job
finished = record fresh { status = succeeded; attempts = 1; result = some null }

abbrev table : Table
table = record {
  ids = 7 ∷ 8 ∷ [];
  rows = λ k. if k == 7 then some fresh else if k == 8 then some finished else none;
}

abbrev unlocked : ℕ → Bool
unlocked k = false

claimed : (claim unlocked 10 none 1 120 table).0 ≡ some (7, leased 10 1 120 fresh)
unfolding claim leased is_due
claimed = refl

-- Another process claims, completes with a stale attempt, and expires deadlines.
abbrev foreign_calls : List latency_aware_inference.JobStore.Calls.Call
foreign_calls =
    claim_call unlocked 20 none 2 120 ∷ complete_call 30 7 9 none none ∷ expire_call 40 ∷ []

foreign :
    All (IsForeign 7 1 (min (10 + 120 * 1000) (leased 10 1 120 fresh).deadline_at)) foreign_calls
unfolding IsForeign leased
foreign = (omega arith, (inr (λ e. omega (arith, e)), (omega arith, tt)))

claim-exclusive_example :
    get (run foreign_calls (claim unlocked 10 none 1 120 table).1) 7 ≡ some (leased 10 1 120 fresh)
claim-exclusive_example =
    claim-exclusive unlocked 10 none 1 120 7 (leased 10 1 120 fresh) table claimed foreign_calls
      foreign

held : get table 8 ≡ some finished
unfolding get
held = refl

run-final_example : get (run foreign_calls table) 8 ≡ some finished
run-final_example = run-final 8 finished table held refl foreign_calls

candidate-IsBest_example :
    IsBest table.rows
      (IsClaimable unlocked none 10 table.rows)
      (7 ∷ 8 ∷ [])
      (candidate unlocked none 10 table.rows (7 ∷ 8 ∷ []))
candidate-IsBest_example = candidate-IsBest unlocked none 10 table.rows (7 ∷ 8 ∷ [])

abbrev settings : Settings
settings = record {
  lease_seconds = 120;
  renew_interval = 30000;
  retry_seconds = 5;
  poll_interval = 500;
  max_inflight = 1;
  fingerprint = λ spec. "74234e98";
}

abbrev gateway : Gateway
gateway = record {
  active = [];
  stopped = false;
  table = table;
  queue = queue;
  heap = heap;
  next_task = 5;
}

abbrev round : ℕ → Round
round i = record {
  database = 10 + i;
  instant = instant i;
  locked = unlocked;
  attempt = 100 + i;
  task_id = "c";
}

run-bound_example :
    length (Bound.run settings (submits (round 0) 7 ∷ polls 20 round round ∷ []) gateway).active ≤ 1
run-bound_example =
    run-bound settings (submits (round 0) 7 ∷ polls 20 round round ∷ []) gateway (omega arith)

endpoints-IsAuthorized_example :
    IsAuthorized (some "secret") (some "Bearer guess")
    ⊎ ((x : HttpError) × ((submit_job true settings
              (round 0)
              (some "secret")
              (some "Bearer guess")
              7
              (some gateway)
            ≡ (raised x, some gateway))
          × (get_job true (some "secret") (some "Bearer guess") 7 (some gateway) ≡ raised x)))
endpoints-IsAuthorized_example =
    endpoints-IsAuthorized true settings (round 0) (some "secret") (some "Bearer guess") 7
      (some gateway)
