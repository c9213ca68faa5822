-- ===== src/Examples/Service.antt =====
-- The endpoints, the gate and the deployment, on a request, three arrivals and a failing host.
use latency_aware_inference.Common.{
  ℕ, zero, suc, ◌*◌, ◌≡◌, ◌≤◌, refl, Bool, true, false, some, [], ◌∷◌, All, arith,
}
use latency_aware_inference.Common.Int.{pos}
use latency_aware_inference.Task.{Task, is_terminal, new_task}
use latency_aware_inference.Task.Lifecycle.{Evolves-refl}
use latency_aware_inference.Proxy.Process.{Instant}
use latency_aware_inference.Queue.{put}
use latency_aware_inference.Predict.{predict, respond, Counters, poll, settle}
use latency_aware_inference.Predict.Answer.{IsObserved, predict-answers}
use latency_aware_inference.Predict.Counts.{Agree, sum_below}
use latency_aware_inference.Gate.{text, missing, unreadable, marker_state, Gate, running_counted}
use latency_aware_inference.Gate.Admission.{
  arrival, departure, events, counted, IsDraining, events-active, events-draining,
}
use latency_aware_inference.Common.Result.{ok, raised}
use latency_aware_inference.Deploy.{Runtime, run, rollback_failed, replace, roll_back, transact}
use latency_aware_inference.Deploy.Admission.{ClosesAdmission, Keeps, run-closed}
use latency_aware_inference.Examples.{heap, queue}

-- A task that no worker takes, watched by a clock of one second a round.
abbrev clock : ℕ → Instant
clock i = record { monotonic = i * 1000; wall = i * 1000 }

abbrev seen : ℕ → Task
seen i = heap 2

observed : IsObserved clock seen 30000
unfolding new_task
observed = record {
  ticks = λ i. omega arith;
  evolves = λ i. Evolves-refl (heap 2);
  deadline = λ i. refl;
}

put_in : put queue 9 ≡ some (record queue { items = 1 ∷ 2 ∷ 9 ∷ []; total_enqueued = 3 })
unfolding put
put_in = refl

predict-answers_example :
    (i : ℕ) × ((poll clock seen 31 0 ≡ some i)
      × ((predict 31 9 clock seen queue ≡ (
        some (respond (settle clock seen i)),
        record queue { items = 1 ∷ 2 ∷ 9 ∷ []; total_enqueued = 3 },
      ))
          × (is_terminal (settle clock seen i).status ≡ true)))
predict-answers_example =
    predict-answers clock seen 30000 observed 31 30 (omega arith) (omega arith) 9 queue
      (record queue { items = 1 ∷ 2 ∷ 9 ∷ []; total_enqueued = 3 }) put_in

abbrev no_counts : Counters
no_counts = record { requests = 0; failures = 0; responses = λ code. 0; observed = 0 }

sum_zero : (n : ℕ) → sum_below n (λ code. 0) ≡ 0
unfolding sum_below
sum_zero zero = refl
sum_zero (suc n) = omega (arith, sum_zero n)

agree : Agree no_counts
agree = record { durations = refl; total = sum_zero 600; failed = omega (arith, sum_zero 400) }

abbrev gate : Gate
gate = record { active = pos 1 }

counted_one : gate.active ≡ pos (counted (running_counted ∷ []))
unfolding counted
counted_one = refl

events-active_example :
    let (ps, g) =
      events (arrival "http" "POST" missing ∷ departure 1 ∷ []) (running_counted ∷ [], gate) in
    g.active ≡ pos (counted ps)
events-active_example =
    events-active (arrival "http" "POST" missing ∷ departure 1 ∷ []) (running_counted ∷ []) gate
      counted_one

draining :
    All IsDraining
      (arrival "http" "POST" (text "id") ∷ arrival "http" "GET" unreadable ∷ departure 2 ∷ [])
unfolding IsDraining marker_state
draining = (refl, (refl, (tt, tt)))

events-draining_example :
    counted
      (events
        (arrival "http" "POST" (text "id") ∷ arrival "http" "GET" unreadable ∷ departure 2 ∷ [])
        (running_counted ∷ [], gate)).0
    ≤ counted (running_counted ∷ [])
events-draining_example =
    events-draining
      (arrival "http" "POST" (text "id") ∷ arrival "http" "GET" unreadable ∷ departure 2 ∷ [])
      (running_counted ∷ []) gate draining

-- A host on which nothing starts: its state is whether admission is closed.
abbrev host : Runtime Bool
host = record {
  validate_archive = λ archive sha expected s. (ok tt, s);
  prepare = λ sha s. (ok "release", s);
  load = λ archive sha s. (ok "image", s);
  previous = λ s. (ok ("old", "old-image"), s);
  busy = λ s. (ok false, s);
  begin_transaction = λ old s. (ok tt, s);
  begin_drain = λ s. (ok tt, true);
  wait_idle = λ s. (ok tt, s);
  stop = λ s. (ok tt, s);
  start = λ release images s. (raised "no space left on device", s);
  healthy = λ images s. (ok false, s);
  write_record = λ release images old s. (ok tt, s);
  restore = λ old s. (ok tt, s);
  end_drain = λ s. (ok tt, false);
  finish = λ s. (ok tt, s);
}

closes : ClosesAdmission host (λ closed. closed ≡ true)
unfolding Keeps
closes = record {
  drain_closes = λ s e. refl;
  wait_idle_keeps = λ s c. c;
  stop_keeps = λ s c. c;
  start_keeps = λ release images s c. c;
  healthy_keeps = λ images s c. c;
  record_keeps = λ release images old s c. c;
  restore_keeps = λ old s c. c;
}

failed_twice : (run host "sha" "archive" "digest" false).0 ≡ raised rollback_failed
unfolding run transact replace roll_back
failed_twice = refl

run-closed_example : (run host "sha" "archive" "digest" false).1 ≡ true
run-closed_example =
    run-closed host (λ closed. closed ≡ true) closes "sha" "archive" "digest" false failed_twice
