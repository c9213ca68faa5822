-- ===== src/JobStore/Calls.antt =====
-- Sequences of statements on the table, of any number of processes.
use latency_aware_inference.Common.{ℕ, ◌<◌, ◌≢◌, ◌⊎◌, Bool, Option, List, [], ◌∷◌}
use latency_aware_inference.Task.Payload.{Value}
use latency_aware_inference.JobStore.{
  Table, JobError, claim, renew, complete, defer, expire_deadlines,
}

-- A statement, with the reading of `now()` in it.
pub data Call : Type 0 where
  claim_call : (ℕ → Bool) → ℕ → Option ℕ → ℕ → ℕ → Call
  renew_call : ℕ → ℕ → ℕ → ℕ → Call
  complete_call : ℕ → ℕ → ℕ → Option Value → Option JobError → Call
  defer_call : ℕ → ℕ → ℕ → JobError → ℕ → Call
  expire_call : ℕ → Call

unfoldable pub call : Call → Table → Table
unfolding claim renew complete defer expire_deadlines
call (claim_call locked now wanted attempt lease) t = (claim locked now wanted attempt lease t).1
call (renew_call now id attempt lease) t = (renew now id attempt lease t).1
call (complete_call now id attempt result error) t = (complete now id attempt result error t).1
call (defer_call now id attempt error retry) t = (defer now id attempt error retry t).1
call (expire_call now) t = (expire_deadlines now t).1

unfoldable pub run : List Call → Table → Table
unfolding call
run [] t = t
run (c ∷ cs) t = run cs (call c t)

-- A statement before the time `limit` that does not act for the attempt `a` of the job `i`.
unfoldable pub IsForeign : ℕ → ℕ → ℕ → Call → Type 0
IsForeign i a limit (claim_call locked now wanted attempt lease) = now < limit
IsForeign i a limit (renew_call now id attempt lease) = (id ≢ i) ⊎ (attempt ≢ a)
IsForeign i a limit (complete_call now id attempt result error) = (id ≢ i) ⊎ (attempt ≢ a)
IsForeign i a limit (defer_call now id attempt error retry) = (id ≢ i) ⊎ (attempt ≢ a)
IsForeign i a limit (expire_call now) = now < limit
