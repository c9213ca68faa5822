-- ===== src/TextTasks/Waiting.antt =====
-- The end of the wait of `text_task`.
use latency_aware_inference.Common.{
  ℕ, zero, suc, ◌+◌, ◌≡◌, ◌≤◌, ◌<◌, refl, subst, Bool, true, false, Option, some, String, arith,
  Bool-cases, inl, inr, ◌⊎◌, leb,
}
use latency_aware_inference.Common.Result.{ok, raised}
use latency_aware_inference.Task.{Task, is_terminal, is_expired, mark_failed}
use latency_aware_inference.Task.Payload.{Value}
use latency_aware_inference.Proxy.Process.{Instant}
use latency_aware_inference.Queue.{TaskQueue, put}
use latency_aware_inference.TextTasks.{
  TextTaskRequest, http, Ending, respond, cancelled, overdue, wait, admit, text_task,
}

failed-ends :
    (m : String) (c : Option String) (n : ℕ) (t : Task)
    → is_terminal (mark_failed m c n t).status ≡ true
unfolding mark_failed
failed-ends m c n t = ground arith

-- An ending with a terminal task and the response of that task, or that of a caller who is gone.
pub record IsFinal (is_gone : ℕ → Bool) (e : Ending) : Type 0 where
  pub terminal : is_terminal e.task.status ≡ true
  pub honest :
      (e.response ≡ respond e.task)
      ⊎ ((e.response ≡ raised (http 499 "text caller disconnected"))
          × ((i : ℕ) × (is_gone i ≡ true)))

module _ (clock : ℕ → Instant) (seen marked : ℕ → Task) (is_gone : ℕ → Bool) (limit : ℕ) where
  abbrev Ends : Option Ending → Type 0
  Ends o = (e : Ending) × ((o ≡ some e) × IsFinal is_gone e)

  expired :
      (i : ℕ)
      → (marked i).deadline ≡ some limit
      → is_expired (marked i) (clock i).monotonic ≡ leb limit (clock i).monotonic
  unfolding is_expired
  expired i d = rw d (ground arith)

  -- A round that does not go on ends the wait.
  round-Ends :
      (fuel i : ℕ)
      → (is_expired (marked i) (clock i).monotonic ≡ false
          → Ends (wait clock seen marked is_gone fuel (suc i)))
      → Ends (wait clock seen marked is_gone (suc fuel) i)
  unfolding wait
  round-Ends fuel i k = elim (Bool-cases (is_terminal (seen i).status)) [
    | inl t ↦ (
      record { task = seen i; response = respond (seen i) },
      (rw t refl, record { terminal = t; honest = inl refl }),
    )
    | inr t ↦ elim (Bool-cases (is_gone i)) [
      | inl g ↦ (
        record {
          task = cancelled clock seen marked is_gone i;
          response = raised (http 499 "text caller disconnected");
        },
        (
          rw (t, g) refl,
          record {
            terminal =
                failed-ends "text caller disconnected" (some "cancelled") (clock i).wall (marked i);
            honest = inr (refl, (i, g));
          },
        ),
      )
      | inr g ↦ elim (Bool-cases (is_expired (marked i) (clock i).monotonic)) [
        | inl x ↦ (
          record {
            task = overdue clock seen marked is_gone i;
            response = respond (overdue clock seen marked is_gone i);
          },
          (
            rw (t, g, x) refl,
            record {
              terminal =
                  failed-ends "text stage deadline exceeded" (some "deadline_exceeded")
                    (clock i).wall (marked i);
              honest = inl refl;
            },
          ),
        )
        | inr x ↦ let (e, (same, final)) = k x in (e, (rw (t, g, x) same, final))
      ]
    ]
  ]

  wait-Ends :
      ((i : ℕ) → (marked i).deadline ≡ some limit)
      → (fuel m i : ℕ) → limit ≤ (clock (i + m)).monotonic
      → m < fuel
      → Ends (wait clock seen marked is_gone fuel i)
  wait-Ends d zero m i l f = absurd (omega (arith, f))
  wait-Ends d (suc fuel) zero i l f =
      let same : i + 0 ≡ i = omega arith in
      let l' = subst (λ j. limit ≤ (clock j).monotonic) same l in
      round-Ends fuel i (λ x. absurd (ground (arith, x, expired i (d i), l')))
  wait-Ends d (suc fuel) (suc m) i l f = round-Ends fuel i (λ x.
      wait-Ends d fuel m (suc i) (subst (λ j. limit ≤ (clock j).monotonic) (omega arith) l)
        (omega (arith, f)))

  -- A request that is admitted and queued is answered once the clock reaches its deadline at a
  -- round for which there is fuel. The task that the wait leaves is done or failed, and the answer is
  -- its response; or the caller is gone and the answer is 499.
  pub text_task-answers :
      (encode : Value → Option ℕ)
      → ((i : ℕ) → (marked i).deadline ≡ some limit)
      → (fuel n r : ℕ) → limit ≤ (clock n).monotonic
      → n < fuel
      → (body : TextTaskRequest) → admit encode body ≡ ok tt
      → (q q' : TaskQueue) → put q r ≡ some q'
      → (e : Ending) × ((wait clock seen marked is_gone fuel 0 ≡ some e)
          × ((text_task encode clock seen marked is_gone fuel r body q ≡ (some e.response, q'))
              × IsFinal is_gone e))
  unfolding text_task
  text_task-answers encode d fuel n r l f body a q q' p =
      let (e, (same, final)) =
        wait-Ends d fuel n 0 (subst (λ j. limit ≤ (clock j).monotonic) (omega arith) l) f in
      (e, (same, (rw (a, p, same) refl, final)))
