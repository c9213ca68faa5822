-- ===== src/Gate.antt =====
-- system/deployment.py: `DeploymentGate`, the count of the active requests behind the drain
-- marker, and `DeploymentMiddleware`. The marker is a file that the deployment tool writes.
pub mod Admission
use latency_aware_inference.Common.{
  ℕ, zero, suc, ◌+◌, Bool, true, false, not, ◌&&◌, ◌||◌, Option, none, some, String, str_eq,
  if◌then◌else◌, List, [], ◌∷◌,
}
use latency_aware_inference.Common.Int.{ℤ, pos, negsuc}

-- What reading the marker file gives; the text of a file is stripped.
pub data Marker : Type 0 where
  missing unreadable : Marker
  text : String → Marker

-- Whether the platform drains, and the drain's id.
unfoldable pub marker_state : Marker → Bool × Option String
marker_state missing = (false, none)
marker_state unreadable = (true, none)
marker_state (text id) = (true, some id)

pub record Gate : Type 0 where
  pub active : ℤ

abbrev pub up : ℤ → ℤ
up (pos n) = pos (n + 1)
up (negsuc zero) = pos 0
up (negsuc (suc n)) = negsuc n

abbrev pub down : ℤ → ℤ
down (pos zero) = negsuc 0
down (pos (suc n)) = pos n
down (negsuc n) = negsuc (n + 1)

unfoldable pub enter : Marker → Gate → Bool × Gate
unfolding marker_state
enter m g = if (marker_state m).0 then (false, g) else (true, record g { active = up g.active })

unfoldable pub leave : Gate → Gate
leave g = record g { active = down g.active }

pub record Snapshot : Type 0 where
  pub protocol : ℕ
  pub draining : Bool
  pub drain_id : Option String
  pub active : ℤ

unfoldable pub snapshot : Marker → Gate → Snapshot
unfolding marker_state
snapshot m g =
    let (draining, token) = marker_state m in
    record { protocol = 1; draining = draining; drain_id = token; active = g.active }

-- A request that the middleware counts: not an HTTP request, or one of a safe method, passes.
abbrev pub is_counted : String → String → Bool
is_counted kind method =
    str_eq kind "http"
    && not (str_eq method "GET" || str_eq method "HEAD" || str_eq method "OPTIONS")

-- Where a call of the middleware stands: the application is running, counted or not, or the call
-- ended, with the response 503 or by the application's return or exception.
pub data Phase : Type 0 where
  running_uncounted running_counted : Phase
  ended_refused ended_app : Phase

-- The part of `__call__` before the application, and the part after it.
unfoldable pub begin_request : String → String → Marker → Gate → Phase × Gate
unfolding enter
begin_request kind method m g =
    if not (is_counted kind method)
    then (running_uncounted, g)
    else let (admitted, g') = enter m g in (if admitted then running_counted else ended_refused, g')

unfoldable pub end_request : Phase → Gate → Phase × Gate
unfolding leave
end_request running_counted g = (ended_app, leave g)
end_request running_uncounted g = (ended_app, g)
end_request ended_refused g = (ended_refused, g)
end_request ended_app g = (ended_app, g)
