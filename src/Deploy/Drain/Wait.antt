-- ===== src/Deploy/Drain/Wait.antt =====
-- deploy/ci/deploy_platform.py: `wait_idle`.
use latency_aware_inference.Common.{
  ℕ, zero, suc, Bool, true, false, not, ◌&&◌, ◌||◌, Option, none, some, String, leb, ◌==◌,
  if◌then◌else◌,
}
use latency_aware_inference.Common.Result.{Result, ok, raised}
use latency_aware_inference.Deploy.Drain.{
  Boundary, gateway, worker, Platform, Publish, status, fence, acknowledged,
}

-- The backend's own report: `draining`, `drain_id == backend.drain_token`, and its two counts.
pub record Backend : Type 0 where
  pub draining : Bool
  pub is_ours : Bool
  pub active_requests : ℕ
  pub active_operations : ℕ

-- One round of `wait_idle`: the answers to its calls, `none` where one fails; the clock; and what
-- the other processes do before the gateway is read, before the worker's marker is published and
-- before the worker is read.
pub record Round : Type 0 where
  pub backend : Option Backend
  pub quiet : Option Bool
  pub gateway_answers : Bool
  pub busy : Option Bool
  pub publish : Publish
  pub worker_answers : Bool
  pub is_protected : Bool
  pub now : ℕ
  pub before_gateway : Platform → Platform
  pub before_worker : Platform → Platform

abbrev pub Step : Type 0
Step = Result String Bool × Platform

abbrev pub read_status : Bool → Boundary → Platform → Result String Bool
read_status answers b p =
    if answers then acknowledged p.token (status b p) else raised "health endpoint failed"

-- `if self.acknowledged(self.worker_status())`, then `assert_protected`.
abbrev pub confirmed : Round → Result String Bool → Platform → Step
confirmed r (raised e) p = (raised e, p)
confirmed r (ok false) p = (ok false, p)
confirmed r (ok true) p =
    if r.is_protected then (ok true, p) else (raised "Protected dependency changed or stopped", p)

abbrev pub read_worker : Round → Result String (Unit {0}) × Platform → Step
read_worker r (raised e, p) = (raised e, p)
read_worker r (ok _, p) =
    let p' = r.before_worker p in confirmed r (read_status r.worker_answers worker p') p'

-- The worker is fenced once the rest is idle.
unfoldable pub close_worker : Round → Platform → Step
unfolding fence acknowledged
close_worker r p = read_worker r (if p.named worker then (ok tt, p) else fence r.publish worker p)

-- `not self.busy() and quiet and gateway_idle`, after the backend's counts.
abbrev pub if_idle : Round → Option Bool → Bool → Platform → Step
if_idle r none others p = (raised "backend failed", p)
if_idle r (some busy) others p = if not busy && others then close_worker r p else (ok false, p)

abbrev pub gateway_read : Round → Backend → Bool → Result String Bool → Platform → Step
gateway_read r b quiet (raised e) p = (raised e, p)
gateway_read r b quiet (ok is_idle) p =
    if b.active_requests == 0 && b.active_operations == 0
    then if_idle r r.busy (quiet && is_idle) p
    else (ok false, p)

abbrev pub quiet_read : Round → Backend → Option Bool → Platform → Step
quiet_read r b none p = (raised "metrics endpoint failed", p)
quiet_read r b (some quiet) p =
    let p' = r.before_gateway p in
    gateway_read r b quiet (read_status r.gateway_answers gateway p') p'

abbrev pub backend_read : Round → Option Backend → Platform → Step
backend_read r none p = (raised "backend failed", p)
backend_read r (some b) p =
    if not b.draining || not b.is_ours
    then (raised "Backend did not acknowledge this platform maintenance window", p)
    else quiet_read r b r.quiet p

-- The body of the loop: whether the wait is over.
unfoldable pub round : Round → Platform → Step
unfolding close_worker
round r p = backend_read r r.backend p

abbrev pub next_round :
    Bool
    → Step
    → (Platform → Option (Result String (Unit {0}) × Platform))
    → Option (Result String (Unit {0}) × Platform)
next_round late (raised e, p) rest = some (raised e, p)
next_round late (ok true, p) rest = some (ok tt, p)
next_round late (ok false, p) rest =
    if late
    then some (raised "Platform did not become idle; old services remain running", p)
    else rest p

-- The rounds from `i` on; `none`: the fuel ran out.
unfoldable pub rounds :
    ℕ → (ℕ → Round) → ℕ → ℕ → Platform → Option (Result String (Unit {0}) × Platform)
unfolding round
rounds zero r deadline i p = none
rounds (suc fuel) r deadline i p =
    next_round (leb deadline (r i).now) (round (r i) p) (rounds fuel r deadline (suc i))

abbrev pub fenced :
    Result String (Unit {0}) × Platform
    → (Platform → Option (Result String (Unit {0}) × Platform))
    → Option (Result String (Unit {0}) × Platform)
fenced (raised e, p) rest = some (raised e, p)
fenced (ok _, p) rest = rest p

-- `wait_idle`; `answers` is whether the backend's own wait returns, `how` the publication of the
-- gateway's marker.
unfoldable pub wait_idle :
    ℕ → Bool → Publish → (ℕ → Round) → ℕ → Platform → Option (Result String (Unit {0}) × Platform)
unfolding fence rounds
wait_idle fuel answers how r deadline p =
    if answers
    then fenced (fence how gateway p) (rounds fuel r deadline 0)
    else some (raised "backend failed", p)
