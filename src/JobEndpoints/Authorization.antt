-- ===== src/JobEndpoints/Authorization.antt =====
-- Requests without the token.
use latency_aware_inference.Common.{
  ℕ, ◌≡◌, ◌⊎◌, refl, ap, Bool, false, Option, none, some, String, str_append, str_eq, str_eq_iff,
  Bool-cases, inl, inr,
}
use latency_aware_inference.Common.Result.{Result, raised, ◌>>=◌}
use latency_aware_inference.Gateway.{Settings, Round, Gateway}
use latency_aware_inference.JobEndpoints.{
  HttpError, http, or_empty, require_jobs_auth, submitted, submit_job, get_job, looked_up,
}

-- The request carries the token of the service, which is not empty.
abbrev pub IsAuthorized : Option String → Option String → Type 0
IsAuthorized token supplied =
    (str_eq (or_empty token) "" ≡ false)
    × (or_empty supplied ≡ str_append "Bearer " (or_empty token))

enabled-IsAuthorized :
    (gateway : Option Gateway) (token supplied : Option String)
    → IsAuthorized token supplied
      ⊎ ((e : HttpError) × (require_jobs_auth gateway token supplied ≡ raised e))
unfolding require_jobs_auth
enabled-IsAuthorized none token supplied = inr (_, refl)
enabled-IsAuthorized (some g) token supplied = elim (Bool-cases (str_eq (or_empty token) "")) [
  | inl e ↦ inr (http 503 "durable jobs are not enabled", rw e refl)
  | inr e ↦ elim (Bool-cases (str_eq (or_empty supplied) (str_append "Bearer " (or_empty token)))) [
    | inl m ↦ inl (e, (str_eq_iff (or_empty supplied) (str_append "Bearer " (or_empty token))).0 m)
    | inr m ↦ inr (http 401 "invalid service authorization", rw (e, m) refl)
  ]
]

-- A request without the service's token is answered with an error by both endpoints, and leaves
-- the gateway as it is.
pub endpoints-IsAuthorized :
    (answers : Bool) (c : Settings) (e : Round) (token supplied : Option String) (id : ℕ)
    (gateway : Option Gateway)
    → IsAuthorized token supplied
      ⊎ ((x : HttpError) × ((submit_job answers c e token supplied id gateway ≡ (raised x, gateway))
            × (get_job answers token supplied id gateway ≡ raised x)))
unfolding submit_job get_job
endpoints-IsAuthorized answers c e token supplied id gateway =
    elim (enabled-IsAuthorized gateway token supplied) [
      | inl a ↦ inl a
      | inr (x, r) ↦ inr (
        x,
        (
          ap (submitted answers c e id gateway) r,
          ap (λ (o : Result HttpError Gateway). o >>= looked_up answers id) r,
        ),
      )
    ]
