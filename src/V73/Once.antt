-- ===== src/V73/Once.antt =====
-- The requests that the daemon is sent for a job.
use latency_aware_inference.Common.{ℕ, ◌≤◌, Option, String, List, [], ◌∷◌}
use latency_aware_inference.V73.Run.{blank, Disk, Host, process}
use latency_aware_inference.V73.Walk.{IsSound, process-IsGood, blank-IsSound}

-- One call of `process` for the job: what the host answers, the deadline and the fingerprint.
pub record Attempt : Type 0 where
  pub host : Host
  pub deadline : Option ℕ
  pub fingerprint : String

unfoldable pub attempts : String → List Attempt → Disk → Disk
unfolding process
attempts out [] d = d
attempts out (a ∷ rest) d = attempts out rest (process a.host a.deadline a.fingerprint out d).1

attempts-IsSound :
    (out : String) (tries : List Attempt) (d : Disk)
    → IsSound (λ _. Unit {0}) d
    → IsSound (λ _. Unit {0}) (attempts out tries d)
unfolding attempts
attempts-IsSound out [] d s = s
attempts-IsSound out (a ∷ rest) d s =
    attempts-IsSound out rest (process a.host a.deadline a.fingerprint out d).1
      (process-IsGood (λ _. Unit {0}) a.host a.deadline a.fingerprint out d (λ r v e. tt) s).0

-- Over any sequence of attempts at a new job the daemon is sent at most one request: whichever
-- writes fail, wherever a process dies, whatever the daemon answers or leaves unanswered, and
-- whether or not a report is found.
pub attempts_once :
    (out : String) (tries : List Attempt)
    → (attempts out tries (record { state = blank; requests = 0 })).requests ≤ 1
attempts_once out tries =
    (attempts-IsSound out tries (record { state = blank; requests = 0 })
      (blank-IsSound (λ _. Unit {0}))).once
