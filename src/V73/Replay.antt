-- ===== src/V73/Replay.antt =====
-- Jobs that have a result or a final error.
use latency_aware_inference.Common.{
  ℕ, ◌≡◌, refl, ap, str_eq_refl, true, not, ◌&&◌, Option, none, some, String, arith, if_cases,
}
use latency_aware_inference.Task.Payload.{Value}
use latency_aware_inference.V73.{WorkerError}
use latency_aware_inference.V73.Payload.{is_text}
use latency_aware_inference.V73.Run.{
  is_blank, Disk, Outcome, returned, error, Host, is_in_time, decide, process, replayed,
}

-- The recorded outcome: the result, or else the error.
unfoldable pub recorded : Option Value → Option WorkerError → Option Outcome
recorded (some v) e = some (returned v)
recorded none (some e) = some (error (replayed e))
recorded none none = none

decide-recorded :
    (h : Host) (deadline : Option ℕ) (fingerprint out : String) (v : Option Value)
    (e : Option WorkerError) (d : Disk) (o : Outcome)
    → recorded v e ≡ some o
    → decide h deadline fingerprint out v e d ≡ (o, d)
unfolding recorded
decide-recorded h deadline fingerprint out (some v) e d o r = cc r
decide-recorded h deadline fingerprint out none (some e) d o r = cc r
decide-recorded h deadline fingerprint out none none d o r = absurd (cc r)

unchanged :
    (h : Host) (deadline : Option ℕ) (fingerprint out : String) (d : Disk) (o : Outcome)
    → recorded d.state.result d.state.error ≡ some o
    → (process h deadline fingerprint out d).1 ≡ d
unfolding process
unchanged h deadline fingerprint out d o r =
    if_cases (λ (x : Outcome × Disk). x.1 ≡ d) (not (is_in_time deadline h.first)) _ _ (λ _. refl)
      (λ _.
        if_cases (λ (x : Outcome × Disk). x.1 ≡ d) (not h.job_free) _ _ (λ _. refl)
          (λ _.
            if_cases (λ (x : Outcome × Disk). x.1 ≡ d)
              (not (is_blank d.state) && not (is_text d.state.fingerprint fingerprint)) _ _
              (λ _. refl)
              (λ _.
                ap (λ x. x.1)
                  (decide-recorded h deadline fingerprint out d.state.result d.state.error d o r))))

-- A job whose outcome is recorded stays as it is under every call, which sends nothing to the
-- daemon; and a call that is in time, has the same spec and gets the job's lock answers that
-- outcome.
pub process-recorded :
    (h h' : Host) (deadline deadline' : Option ℕ) (fingerprint fingerprint' out : String) (d : Disk)
    (o : Outcome)
    → recorded d.state.result d.state.error ≡ some o
    → is_in_time deadline h.first ≡ true
    → h.job_free ≡ true
    → d.state.fingerprint ≡ some fingerprint
    → (process h deadline fingerprint out d ≡ (o, d))
      × ((process h' deadline' fingerprint' out d).1 ≡ d)
unfolding process
process-recorded h h' deadline deadline' fingerprint fingerprint' out d o r t f s = (
  ground (
    arith,
    t,
    f,
    s,
    str_eq_refl fingerprint,
    decide-recorded h deadline fingerprint out d.state.result d.state.error d o r,
  ),
  unchanged h' deadline' fingerprint' out d o r,
)
