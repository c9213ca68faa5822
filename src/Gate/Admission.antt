-- ===== src/Gate/Admission.antt =====
-- The requests in progress, in any interleaving of their beginnings and ends.
use latency_aware_inference.Common.{
  ℕ, zero, suc, ◌+◌, ◌≤◌, ◌≡◌, ap, ◌∙◌, true, String, List, [], ◌∷◌, arith, All,
}
use latency_aware_inference.Common.Int.{pos}
use latency_aware_inference.Gate.{
  Marker, Gate, Phase, running_counted, running_uncounted, ended_app, ended_refused, begin_request,
  end_request, enter, leave, marker_state, down,
}

-- A request arrives, with the marker as it is read then; or the request at a position ends.
pub data Event : Type 0 where
  arrival : String → String → Marker → Event
  departure : ℕ → Event

-- The request at the position ends.
abbrev end_at : ℕ → List Phase → Gate → List Phase × Gate
end_at i [] g = ([], g)
end_at zero (p ∷ ps) g = let (q, g') = end_request p g in (q ∷ ps, g')
end_at (suc i) (p ∷ ps) g = let (qs, g') = end_at i ps g in (p ∷ qs, g')

unfoldable pub event : Event → List Phase × Gate → List Phase × Gate
unfolding begin_request end_request
event (arrival kind method m) (ps, g) = let (p, g') = begin_request kind method m g in (p ∷ ps, g')
event (departure i) (ps, g) = end_at i ps g

unfoldable pub events : List Event → List Phase × Gate → List Phase × Gate
unfolding event
events [] s = s
events (e ∷ es) s = events es (event e s)

abbrev in_progress : Phase → ℕ
in_progress running_counted = 1
in_progress running_uncounted = 0
in_progress ended_refused = 0
in_progress ended_app = 0

-- How many counted requests are in the application.
unfoldable pub counted : List Phase → ℕ
counted [] = 0
counted (p ∷ ps) = in_progress p + counted ps

arrival-counts :
    (kind method : String) (m : Marker) (ps : List Phase) (g : Gate)
    → g.active ≡ pos (counted ps)
    → let (qs, g') = event (arrival kind method m) (ps, g) in g'.active ≡ pos (counted qs)
unfolding event begin_request enter counted
arrival-counts kind method m ps g e = ground arith

end_at-counts :
    (n i : ℕ) (ps : List Phase) (g : Gate)
    → g.active ≡ pos (n + counted ps)
    → let (qs, g') = end_at i ps g in g'.active ≡ pos (n + counted qs)
unfolding end_request leave counted
end_at-counts n i [] g e = e
end_at-counts n zero (running_counted ∷ ps) g e = falls (e ∙ ap pos (omega arith))
  where
    falls : g.active ≡ pos (suc (n + counted ps)) → down g.active ≡ pos (n + (0 + counted ps))
    falls f = rw f (ap pos (omega arith))
end_at-counts n zero (running_uncounted ∷ ps) g e = e
end_at-counts n zero (ended_refused ∷ ps) g e = e
end_at-counts n zero (ended_app ∷ ps) g e = e
end_at-counts n (suc i) (p ∷ ps) g e =
    end_at-counts (n + in_progress p) i ps g (e ∙ ap pos (omega arith)) ∙ ap pos (omega arith)

-- From a gate whose count is that of its requests, any interleaving of arrivals and departures
-- leaves the count equal to the number of the counted requests in the application, so that it
-- is never negative.
pub events-active :
    (es : List Event) (ps : List Phase) (g : Gate)
    → g.active ≡ pos (counted ps)
    → let (qs, g') = events es (ps, g) in g'.active ≡ pos (counted qs)
unfolding events event
events-active [] ps g e = e
events-active (arrival kind method m ∷ es) ps g e =
    let (p, g') = begin_request kind method m g in
    events-active es (p ∷ ps) g' (arrival-counts kind method m ps g e)
events-active (departure i ∷ es) ps g e =
    let (qs, g') = end_at i ps g in
    events-active es qs g'
      (end_at-counts 0 i ps g (e ∙ ap pos (omega arith)) ∙ ap pos (omega arith))

-- An event that is not an arrival before the drain.
unfoldable pub IsDraining : Event → Type 0
IsDraining (arrival kind method m) = (marker_state m).0 ≡ true
IsDraining (departure i) = Unit

end_at_falls : (i : ℕ) (ps : List Phase) (g : Gate) → counted (end_at i ps g).0 ≤ counted ps
unfolding counted end_request
end_at_falls i [] g = omega arith
end_at_falls zero (running_counted ∷ ps) g = omega arith
end_at_falls zero (running_uncounted ∷ ps) g = omega arith
end_at_falls zero (ended_refused ∷ ps) g = omega arith
end_at_falls zero (ended_app ∷ ps) g = omega arith
end_at_falls (suc i) (p ∷ ps) g = omega (arith, end_at_falls i ps g)

event_falls :
    (e : Event) (ps : List Phase) (g : Gate)
    → IsDraining e
    → counted (event e (ps, g)).0 ≤ counted ps
unfolding event IsDraining counted begin_request enter
event_falls (arrival kind method m) ps g d = ground arith
event_falls (departure i) ps g d = end_at_falls i ps g

-- While each arrival finds the drain marker, or finds it unreadable, the number of the counted
-- requests in the application never rises.
pub events-draining :
    (es : List Event) (ps : List Phase) (g : Gate)
    → All IsDraining es
    → counted (events es (ps, g)).0 ≤ counted ps
unfolding events
events-draining [] ps g d = omega arith
events-draining (e ∷ es) ps g d =
    let (qs, g') = event e (ps, g) in
    omega (arith, events-draining es qs g' d.1, event_falls e ps g d.0)
