-- ===== src/Predict/Answer.antt =====
-- The end of the poll of `predict`, and its response.
use latency_aware_inference.Common.{
  ℕ, zero, suc, ◌+◌, ◌≡◌, ◌≤◌, ◌<◌, refl, ap, subst, ◌∙◌, true, false, ◌||◌, some, arith, if_cases,
  Bool-cases, inl, inr, leb, ◌-◌, ◌==◌, ==_iff,
}
use latency_aware_inference.Task.{Task, is_terminal, is_expired, mark_failed}
use latency_aware_inference.Task.Lifecycle.{Evolves}
use latency_aware_inference.Proxy.Process.{Instant}
use latency_aware_inference.Queue.{TaskQueue, put}
use latency_aware_inference.Predict.{respond, poll, settle, answer, enqueued, predict}

-- The observations of one task with its deadline, by a clock that does not go back.
pub record IsObserved (clock : ℕ → Instant) (seen : ℕ → Task) (limit : ℕ) : Type 0 where
  pub ticks : (i : ℕ) → (clock i).monotonic ≤ (clock (suc i)).monotonic
  pub evolves : (i : ℕ) → Evolves (seen i) (seen (suc i))
  pub deadline : (i : ℕ) → (seen i).deadline ≡ some limit

module _ (clock : ℕ → Instant) (seen : ℕ → Task) (limit : ℕ) (h : IsObserved clock seen limit) where
  expired_iff : (i : ℕ) → is_expired (seen i) (clock i).monotonic ≡ leb limit (clock i).monotonic
  unfolding is_expired
  expired_iff i = rw (h.deadline i) (ground arith)

  expired_later :
      (i : ℕ)
      → is_expired (seen i) (clock i).monotonic ≡ true
      → is_expired (seen (suc i)) (clock (suc i)).monotonic ≡ true
  expired_later i e = ground (arith, e, expired_iff i, expired_iff (suc i), h.ticks i)

  -- A poll that has fuel for a round at or after the deadline stops.
  poll-stops :
      (fuel i n : ℕ)
      → limit ≤ (clock (i + n)).monotonic
      → n < fuel
      → (k : ℕ) × ((poll clock seen fuel i ≡ some (suc k))
          × ((is_expired (seen k) (clock k).monotonic || is_terminal (seen k).status) ≡ true))
  unfolding poll
  poll-stops zero i n l f = absurd (omega (arith, f))
  poll-stops (suc fuel) i n l f = elim (Bool-cases (is_expired (seen i) (clock i).monotonic)) [
    | inl e ↦ (i, (rw e refl, rw e refl))
    | inr e ↦ elim (Bool-cases (is_terminal (seen i).status)) [
      | inl d ↦ (i, (rw (e, d) refl, rw (e, d) refl))
      | inr d ↦
          let (k, (stops, over)) =
            poll-stops fuel (suc i) (n - 1) (later n l e) (omega (arith, f, positive n l e)) in
          (k, (rw (e, d) stops, over))
    ]
  ]
    where
      positive :
          (m : ℕ)
          → limit ≤ (clock (i + m)).monotonic
          → is_expired (seen i) (clock i).monotonic ≡ false
          → 0 < m
      positive m l e = elim (Bool-cases (m == 0)) [
        | inl z ↦ absurd (none_left ((==_iff m 0).0 z) l e)
        | inr z ↦ ground (arith, z)
      ]
        where
          same : m ≡ 0 → i + m ≡ i
          same z = omega (arith, z)

          none_left :
              m ≡ 0
              → limit ≤ (clock (i + m)).monotonic
              → is_expired (seen i) (clock i).monotonic ≡ false
              → ⊥
          none_left z l e =
              let l' = subst (λ k. limit ≤ (clock k).monotonic) (same z) l in
              ground (arith, l', e, expired_iff i)

      later :
          (m : ℕ)
          → limit ≤ (clock (i + m)).monotonic
          → is_expired (seen i) (clock i).monotonic ≡ false
          → limit ≤ (clock (suc i + (m - 1))).monotonic
      later m l e = subst (λ k. limit ≤ (clock k).monotonic) (omega (arith, positive m l e)) l

  settle-ends :
      (k : ℕ)
      → (is_expired (seen k) (clock k).monotonic || is_terminal (seen k).status) ≡ true
      → is_terminal (settle clock seen (suc k)).status ≡ true
  unfolding settle mark_failed
  settle-ends k e = elim (Bool-cases (is_expired (seen k) (clock k).monotonic)) [
    | inl x ↦ rw (expired_later k x) (failed_ends (seen (suc (suc k))))
    | inr x ↦
        if_cases (λ (t : Task). is_terminal t.status ≡ true)
          (is_expired (seen (suc k)) (clock (suc k)).monotonic) _ _
          (λ _. failed_ends (seen (suc (suc k)))) (λ _. frozen x)
  ]
    where
      failed_ends :
          (t : Task)
          → is_terminal
              (mark_failed "request deadline exceeded"
                (some "deadline_exceeded")
                (clock (suc (suc k))).wall
                t).status
            ≡ true
      failed_ends t = ground arith

      frozen :
          is_expired (seen k) (clock k).monotonic ≡ false
          → is_terminal (seen (suc (suc k))).status ≡ true
      frozen x =
          let d : is_terminal (seen k).status ≡ true = ground (arith, e, x) in
          let one = (h.evolves k).frozen d in
          let two = (h.evolves (suc k)).frozen (rw one d) in rw (two, one) d

-- Once the task is in the queue, and the clock reaches the deadline at a round for which there is
-- fuel, the poll stops after some round, `predict` answers with the response of the task as it stands
-- after the poll and the mark that follows it, and that task is done or failed.
pub predict-answers :
    (clock : ℕ → Instant) (seen : ℕ → Task) (limit : ℕ)
    → IsObserved clock seen limit
    → (fuel n : ℕ) → limit ≤ (clock n).monotonic
    → n < fuel
    → (r : ℕ) (q q' : TaskQueue) → put q r ≡ some q'
    → (i : ℕ) × ((poll clock seen fuel 0 ≡ some i)
        × ((predict fuel r clock seen q ≡ (some (respond (settle clock seen i)), q'))
            × (is_terminal (settle clock seen i).status ≡ true)))
unfolding predict
predict-answers clock seen limit h fuel n l f r q q' e =
    let (k, (stops, over)) =
      poll-stops clock seen limit h fuel 0 n
        (subst (λ i. limit ≤ (clock i).monotonic) (omega arith) l) f in
    (suc k, (stops, (finished k stops, settle-ends clock seen limit h k over)))
  where
    finished :
        (k : ℕ)
        → poll clock seen fuel 0 ≡ some (suc k)
        → predict fuel r clock seen q ≡ (some (respond (settle clock seen (suc k))), q')
    finished k stops =
        ap (enqueued fuel clock seen q) e ∙ ap (λ o. (answer o (settle clock seen), q')) stops
