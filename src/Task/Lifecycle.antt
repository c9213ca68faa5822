-- ===== src/Task/Lifecycle.antt =====
-- What the operations on a task keep.
use latency_aware_inference.Common.{
  ℕ, ◌≤◌, ◌≡◌, ◌≢◌, refl, ◌∙◌, true, Option, some, String, arith, leb, ◌||◌, Bool-cases, inl, inr,
}
use latency_aware_inference.Task.{
  Task, pending, is_terminal, is_expired, mark_processing, mark_done, mark_failed,
  try_reserve_retry, first_start,
}
use latency_aware_inference.Task.Payload.{Value}

pub record Evolves (t t' : Task) : Type 0 where
  pub frozen : is_terminal t.status ≡ true → t' ≡ t
  pub started : t.status ≢ pending → t'.status ≢ pending
  pub same_id : t'.task_id ≡ t.task_id
  pub same_input : t'.input_data ≡ t.input_data
  pub same_deadline : t'.deadline ≡ t.deadline
  pub retries : t.retry_count ≤ t'.retry_count
  pub retry_bound : t.retry_count ≤ 1 → t'.retry_count ≤ 1
  pub first_start_kept : (s : ℕ) → t.start_time ≡ some s → t'.start_time ≡ some s

pub Evolves-refl : (t : Task) → Evolves t t
Evolves-refl t = record {
  frozen = λ _. refl;
  started = λ h. h;
  same_id = refl;
  same_input = refl;
  same_deadline = refl;
  retries = omega arith;
  retry_bound = λ h. h;
  first_start_kept = λ s h. h;
}

pub Evolves-trans : {t u v : Task} → Evolves t u → Evolves u v → Evolves t v
Evolves-trans {t} {u} {v} a b = record {
  frozen = λ h. let e = a.frozen h in b.frozen (rw e h) ∙ e;
  started = λ h. b.started (a.started h);
  same_id = b.same_id ∙ a.same_id;
  same_input = b.same_input ∙ a.same_input;
  same_deadline = b.same_deadline ∙ a.same_deadline;
  retries = omega (arith, a.retries, b.retries);
  retry_bound = λ h. b.retry_bound (a.retry_bound h);
  first_start_kept = λ s h. b.first_start_kept s (a.first_start_kept s h);
}

first_start_lem : (o : Option ℕ) (now s : ℕ) → o ≡ some s → first_start o now ≡ some s
first_start_lem o now s e = rw e

pub mark_processing-Evolves : (now : ℕ) (t : Task) → Evolves t (mark_processing now t)
unfolding mark_processing
mark_processing-Evolves now t = elim (Bool-cases (is_terminal t.status)) [
  | inl over ↦ rw over (Evolves-refl t)
  | inr live ↦ rw live (record {
    frozen = λ h. ground arith;
    started = λ h e. cc;
    same_id = refl;
    same_input = refl;
    same_deadline = refl;
    retries = omega arith;
    retry_bound = λ h. h;
    first_start_kept = λ s h. first_start_lem t.start_time now s h;
  })
]

pub mark_done-Evolves : (v : Value) (now : ℕ) (t : Task) → Evolves t (mark_done v now t)
unfolding mark_done
mark_done-Evolves v now t = elim (Bool-cases (is_terminal t.status)) [
  | inl over ↦ rw over (Evolves-refl t)
  | inr live ↦ rw live (record {
    frozen = λ h. ground arith;
    started = λ h e. cc;
    same_id = refl;
    same_input = refl;
    same_deadline = refl;
    retries = omega arith;
    retry_bound = λ h. h;
    first_start_kept = λ s h. h;
  })
]

pub mark_failed-Evolves :
    (m : String) (c : Option String) (now : ℕ) (t : Task) → Evolves t (mark_failed m c now t)
unfolding mark_failed
mark_failed-Evolves m c now t = elim (Bool-cases (is_terminal t.status)) [
  | inl over ↦ rw over (Evolves-refl t)
  | inr live ↦ rw live (record {
    frozen = λ h. ground arith;
    started = λ h e. cc;
    same_id = refl;
    same_input = refl;
    same_deadline = refl;
    retries = omega arith;
    retry_bound = λ h. h;
    first_start_kept = λ s h. h;
  })
]

pub try_reserve_retry-Evolves : (now : ℕ) (t : Task) → Evolves t (try_reserve_retry now t).1
unfolding try_reserve_retry
try_reserve_retry-Evolves now t = elim (Bool-cases (is_terminal t.status)) [
  | inl over ↦ rw over (Evolves-refl t)
  | inr live ↦ elim (Bool-cases (is_expired t now || leb 1 t.retry_count)) [
    | inl spent ↦ rw (live, spent) (Evolves-refl t)
    | inr fresh ↦
        rw (live, fresh)
          (record {
            frozen = λ h. ground arith;
            started = λ h. h;
            same_id = refl;
            same_input = refl;
            same_deadline = refl;
            retries = omega arith;
            retry_bound = λ h. ground arith;
            first_start_kept = λ s h. h;
          })
  ]
]
