-- ===== src/Task/Retry.antt =====
-- The reservation of a retry.
use latency_aware_inference.Common.{ℕ, ◌≤◌, ◌<◌, ◌≡◌, ◌↔◌, true, false, some, arith, Option}
use latency_aware_inference.Task.{
  Task, is_terminal, is_expired, remaining_seconds, try_reserve_retry,
}

-- A deadline leaves time at a reading: there is none, or it is ahead.
abbrev pub LeavesTime : Option ℕ → ℕ → Type 0
LeavesTime o now = (d : ℕ) → o ≡ some d → now < d

-- A reservation is granted exactly to a task that is not terminal, has time left, and has none yet.
pub try_reserve_retry_iff :
    (now : ℕ) (t : Task)
    → ((try_reserve_retry now t).0 ≡ true)
      ↔ ((is_terminal t.status ≡ false) × LeavesTime t.deadline now × (t.retry_count ≡ 0))
unfolding try_reserve_retry is_expired remaining_seconds
try_reserve_retry_iff now t =
    (λ h. (ground arith, λ d e. ground arith, ground arith), λ h. grind arith)

-- Whatever happens to the task in between, a second reservation is refused.
pub try_reserve_retry_once :
    (now later : ℕ) (t u : Task)
    → (try_reserve_retry now t).0 ≡ true
    → (try_reserve_retry now t).1.retry_count ≤ u.retry_count
    → (try_reserve_retry later u).0 ≡ false
unfolding try_reserve_retry
try_reserve_retry_once now later t u h k = ground arith
