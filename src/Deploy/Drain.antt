-- ===== src/Deploy/Drain.antt =====
-- deploy/ci/deploy_platform.py: the drain of the platform, `Runtime.begin_drain`, `fence`,
-- `acknowledged` and `end_drain`, and in Wait `wait_idle`, with the gates of the gateway and of the
-- worker behind their markers (system/deployment.py). What the backend and the host answer is an argument of each operation;
-- so is what other processes do before each reading of a gate.
pub mod Wait
pub mod Idle
pub mod Owners
use latency_aware_inference.Common.{
  ℕ, zero, suc, ◌+◌, Bool, true, false, not, ◌&&◌, ◌||◌, Option, none, some, String, str_eq, List,
  leb, ◌==◌, if◌then◌else◌,
}
use latency_aware_inference.Common.Int.{ℤ, pos, negsuc}
use latency_aware_inference.Common.Result.{Result, ok, raised, ◌>>=◌}
use latency_aware_inference.Gate.{Marker, missing, text, Gate, Phase, Snapshot, snapshot}

-- The two boundaries, with their markers `gateway-drain` and `worker-drain`.
pub data Boundary : Type 0 where
  gateway worker : Boundary

-- A boundary's process: its requests and their count.
pub record Process : Type 0 where
  pub requests : List Phase
  pub gate : Gate

-- The control directory (the text of each marker), `marker_names`, `platform_token`, whether the
-- backend drains, and the processes.
pub record Platform : Type 0 where
  pub control : Boundary → Option String
  pub named : Boundary → Bool
  pub token : Option String
  pub backend_drains : Bool
  pub process : Boundary → Process

abbrev pub is_same : Boundary → Boundary → Bool
is_same gateway gateway = true
is_same gateway worker = false
is_same worker gateway = false
is_same worker worker = true

abbrev pub with_value : {A : Type 0} → Boundary → A → (Boundary → A) → Boundary → A
with_value b a f = λ c. if is_same b c then a else f c

abbrev pub marker_of : Option String → Marker
marker_of none = missing
marker_of (some t) = text t

-- What the health endpoint of a boundary's process reports.
abbrev pub status : Boundary → Platform → Snapshot
status b p = snapshot (marker_of (p.control b)) (p.process b).gate

-- How the publication of a marker ends: done, or interrupted before or after `os.link`.
pub data Publish : Type 0 where
  published cut_before cut_after : Publish

-- `os.link`: a marker that is there is not replaced.
abbrev pub link :
    Publish → Boundary → Option String → Platform → Result String (Unit {0}) × Platform
link cut_before b t p = (raised "interrupted", p)
link published b none p = (ok tt, record p { control = with_value b p.token p.control })
link cut_after b none p =
    (raised "interrupted", record p { control = with_value b p.token p.control })
link _ b (some t) p = (raised "marker exists", p)

-- `fence`: the name is owned before the marker is there.
unfoldable pub fence : Publish → Boundary → Platform → Result String (Unit {0}) × Platform
fence how b p = link how b (p.control b) (record p { named = with_value b true p.named })

-- `begin_drain`, with a fresh token, and whether the backend answers.
unfoldable pub begin_drain : String → Bool → Platform → Result String (Unit {0}) × Platform
begin_drain token answers p =
    let p' = record p { token = some token } in
    if answers then (ok tt, record p' { backend_drains = true }) else (raised "backend failed", p')

abbrev pub same_token : Option String → Option String → Bool
same_token none none = true
same_token none (some t) = false
same_token (some s) none = false
same_token (some s) (some t) = str_eq s t

-- A marker that is there and has another text than the token.
abbrev pub is_foreign : Platform → Boundary → Option String → Bool
is_foreign p b none = false
is_foreign p b (some t) = p.named b && not (same_token (some t) p.token)

abbrev pub unlinked : Platform → Boundary → Option String
unlinked p b = if p.named b then none else p.control b

-- `end_drain`, and whether the backend answers.
unfoldable pub end_drain : Bool → Platform → Result String (Unit {0}) × Platform
end_drain answers p =
    let p' = record p { control = unlinked p; named = λ b. false; token = none } in
    if is_foreign p gateway (p.control gateway) || is_foreign p worker (p.control worker)
    then (raised "Platform drain marker ownership changed; operator recovery required", p)
    else if answers
    then (ok tt, record p' { backend_drains = false })
    else (raised "backend failed", p')

abbrev pub is_zero : ℤ → Bool
is_zero (pos n) = n == 0
is_zero (negsuc n) = false

-- `acknowledged`
unfoldable pub acknowledged : Option String → Snapshot → Result String Bool
acknowledged token s =
    if not (s.protocol == 1) || not s.draining || not (same_token s.drain_id token)
    then raised "Platform process did not acknowledge this maintenance window"
    else ok (is_zero s.active)
