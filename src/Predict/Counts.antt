-- ===== src/Predict/Counts.antt =====
-- The counters of the middleware.
use latency_aware_inference.Common.{
  ℕ, zero, suc, ◌+◌, ◌<◌, ◌≡◌, All, not, ◌||◌, str_eq, String, List, [], ◌∷◌, arith, if_cases,
  if◌then◌else◌, ltb, ◌==◌,
}
use latency_aware_inference.Predict.{
  Counters, Outcome, responded, excepted, record_metrics, status_of, is_failure,
}

-- Requests with their outcomes, one after another.
unfoldable pub observe : List (String × (String × Outcome)) → Counters → Counters
unfolding record_metrics
observe [] c = c
observe ((method, (path, outcome)) ∷ rest) c = observe rest (record_metrics method path outcome c)

-- The sum of the response counters of the codes below `n`.
unfoldable pub sum_below : ℕ → (ℕ → ℕ) → ℕ
sum_below zero f = 0
sum_below (suc n) f = f n + sum_below n f

-- Each request has one duration and one response, and the failures are the responses with a code
-- of 400 and above.
pub record Agree (c : Counters) : Type 0 where
  pub durations : c.observed ≡ c.requests
  pub total : sum_below 600 c.responses ≡ c.requests
  pub failed : c.failures + sum_below 400 c.responses ≡ c.requests

bump :
    (n k : ℕ) (f : ℕ → ℕ)
    → sum_below n (λ c. if c == k then f c + 1 else f c)
      ≡ (if ltb k n then 1 else 0) + sum_below n f
unfolding sum_below
bump zero k f = ground arith
bump (suc n) k f = ground (arith, bump n k f)

-- An outcome whose code is an HTTP status code.
abbrev pub IsHttp : Outcome → Type 0
IsHttp o = status_of o < 600

record_metrics-Agree :
    (method path : String) (o : Outcome) (c : Counters)
    → IsHttp o
    → Agree c
    → Agree (record_metrics method path o c)
unfolding record_metrics
record_metrics-Agree method path o c s a =
    if_cases Agree (not (str_eq method "POST") || not (str_eq path "/predict")) _ _ (λ _. a)
      (λ _. record {
        durations = ground (arith, a.durations);
        total = ground (arith, bump 600 (status_of o) c.responses, s, a.total);
        failed = split o s (bump 400 (status_of o) c.responses);
      })
  where
    split :
        (x : Outcome)
        → IsHttp x
        → sum_below 400 (λ k. if k == status_of x then c.responses k + 1 else c.responses k)
          ≡ (if ltb (status_of x) 400 then 1 else 0) + sum_below 400 c.responses
        → (if is_failure x then c.failures + 1 else c.failures)
            + sum_below 400 (λ k. if k == status_of x then c.responses k + 1 else c.responses k)
          ≡ c.requests + 1
    split (responded code) s b = ground (arith, a.failed, b)
    split excepted s b = ground (arith, a.failed, b)

-- From counters that agree, as at the start, any sequence of requests whose responses have HTTP
-- status codes leaves counters that agree: one duration and one response for each counted
-- request, and a failure for each response of 400 and above or exception.
pub observe-Agree :
    (rs : List (String × (String × Outcome))) (c : Counters)
    → All (λ r. IsHttp r.1.1) rs
    → Agree c
    → Agree (observe rs c)
unfolding observe
observe-Agree [] c s a = a
observe-Agree ((method, (path, o)) ∷ rs) c s a =
    observe-Agree rs (record_metrics method path o c) s.1
      (record_metrics-Agree method path o c s.0 a)
