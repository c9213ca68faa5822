-- ===== src/Proxy/Evolution.antt =====
-- What the dispatch of a batch keeps of the tasks.
use latency_aware_inference.Common.{
  ℕ, suc, Bool, true, false, not, ◌&&◌, Option, none, some, String, List, [], ◌∷◌, is_empty, leb,
  if◌then◌else◌,
}
use latency_aware_inference.Task.{Task, is_expired, mark_processing, mark_done, mark_failed}
use latency_aware_inference.Task.Lifecycle.{
  Evolves, mark_processing-Evolves, mark_done-Evolves, mark_failed-Evolves,
}
use latency_aware_inference.Task.Heap.{
  Heap, on, HeapEvolves, HeapEvolves-refl, HeapEvolves-trans, on-HeapEvolves,
}
use latency_aware_inference.Task.Payload.{Value}
use latency_aware_inference.Proxy.Process.{
  Instant, Handoff, accepted, refused, raised, TaskRequest, TaskResult, Parsed, parsed, malformed,
  RpcOutcome, response, rpc_error, other_error, deadline_exceeded, unavailable, cancelled,
  other_code, Site, Readings, fail_if_expired, is_terminal_at, split_live, each_at, make_requests,
  rpc_timeout, complete, apply_results, store_result, apply_result, find_task, is_durable,
  fail_omitted, with_heap, after_handoff, finish_or_retry, finish_all, may_retry, fail_late,
  fail_expired, after_results, reconcile, dispatch, process_live, process,
}

pub if-HeapEvolves :
    (b : Bool) {h k l : Heap}
    → HeapEvolves h k
    → HeapEvolves h l
    → HeapEvolves h (if b then k else l)
if-HeapEvolves true p q = p
if-HeapEvolves false p q = q

pub fail-HeapEvolves :
    (m : String) (c : Option String) (now r : ℕ) (h : Heap)
    → HeapEvolves h (on r (mark_failed m c now) h)
fail-HeapEvolves m c now r h =
    on-HeapEvolves (mark_failed m c now) (mark_failed-Evolves m c now) r h

pub fail_if_expired-HeapEvolves :
    (r : ℕ) (t : Instant) (h : Heap) → HeapEvolves h (fail_if_expired r t h)
fail_if_expired-HeapEvolves r t h = if-HeapEvolves (is_terminal_at h r) (HeapEvolves-refl h) (
    if-HeapEvolves (is_expired (h r) t.monotonic) (fail-HeapEvolves _ _ t.wall r h)
      (HeapEvolves-refl h))

pub split_live-HeapEvolves :
    (clock : ℕ → Instant) (i : ℕ) (rs : List ℕ) (h : Heap)
    → HeapEvolves h (split_live clock i rs h).1
unfolding split_live
split_live-HeapEvolves clock i [] h = HeapEvolves-refl h
split_live-HeapEvolves clock i (r ∷ rs) h =
    HeapEvolves-trans (fail_if_expired-HeapEvolves r (clock i) h)
      (split_live-HeapEvolves clock (suc i) rs (fail_if_expired r (clock i) h))

pub each_at-HeapEvolves :
    (f : ℕ → Task → Task)
    → ((i : ℕ) (t : Task) → Evolves t (f i t))
    → (i : ℕ) (rs : List ℕ) (h : Heap) → HeapEvolves h (each_at f i rs h)
each_at-HeapEvolves f e i [] h = HeapEvolves-refl h
each_at-HeapEvolves f e i (r ∷ rs) h =
    HeapEvolves-trans (on-HeapEvolves (f i) (e i) r h)
      (each_at-HeapEvolves f e (suc i) rs (on r (f i) h))

pub fail_omitted-HeapEvolves :
    (clock : ℕ → Instant) (i : ℕ) (rs : List ℕ) (h : Heap)
    → HeapEvolves h (fail_omitted clock i rs h)
unfolding fail_omitted
fail_omitted-HeapEvolves clock i [] h = HeapEvolves-refl h
fail_omitted-HeapEvolves clock i (r ∷ rs) h =
    HeapEvolves-trans
      (if-HeapEvolves (is_durable (h r).input_data && not (is_terminal_at h r))
        (fail-HeapEvolves _ _ (clock i).wall r h) (HeapEvolves-refl h))
      (fail_omitted-HeapEvolves clock (suc i) rs _)

pub fail_expired-HeapEvolves :
    (clock : ℕ → Instant) (rs : List ℕ) (h : Heap) → HeapEvolves h (fail_expired clock rs h)
fail_expired-HeapEvolves clock rs h =
    each_at-HeapEvolves (fail_late clock)
      (λ i.
        mark_failed-Evolves "request deadline exceeded" (some "deadline_exceeded") (clock i).wall)
      0 rs h

module _ {P : Type 0} where
  abbrev pub SiteEvolves : Site P → Site P → Type 0
  SiteEvolves s s' = HeapEvolves s.heap s'.heap

  if-SiteEvolves :
      (b : Bool) (h : Heap) (u v : Site P)
      → HeapEvolves h u.heap
      → HeapEvolves h v.heap
      → HeapEvolves h (if b then u else v).heap
  if-SiteEvolves true h u v p q = p
  if-SiteEvolves false h u v p q = q

  complete-SiteEvolves :
      (r : ℕ) (v : Value) (now : ℕ) (s : Site P) → SiteEvolves s (complete r v now s)
  unfolding complete
  complete-SiteEvolves r v now s =
      on-HeapEvolves (mark_done v now) (mark_done-Evolves v now) r s.heap

  store_result-SiteEvolves :
      (r : ℕ) (t : Instant) (x : TaskResult) (success : Bool) (j : Parsed) (s : Site P)
      → SiteEvolves s (store_result r t x success j s).1
  store_result-SiteEvolves r t x true (parsed v) s = complete-SiteEvolves r v t.wall s
  store_result-SiteEvolves r t x true (malformed m) s = HeapEvolves-refl s.heap
  store_result-SiteEvolves r t x false j s = fail-HeapEvolves x.error _ t.wall r s.heap

  apply_result-SiteEvolves :
      (o : Option ℕ) (t : Instant) (x : TaskResult) (s : Site P)
      → SiteEvolves s (apply_result o t x s).1
  apply_result-SiteEvolves none t x s = HeapEvolves-refl s.heap
  apply_result-SiteEvolves (some r) t x s = store_result-SiteEvolves r t x x.success x.result_json s

  pub apply_results-SiteEvolves :
      (clock : ℕ → Instant) (i : ℕ) (batch : List ℕ) (xs : List TaskResult) (s : Site P)
      → SiteEvolves s (apply_results clock i batch xs s).1
  unfolding apply_results
  apply_results-SiteEvolves clock i batch [] s = HeapEvolves-refl s.heap
  apply_results-SiteEvolves clock i batch (x ∷ xs) s =
      go (apply_result (find_task x.task_id batch s.heap) (clock i) x s)
        (apply_result-SiteEvolves (find_task x.task_id batch s.heap) (clock i) x s)
        (apply_results-SiteEvolves clock (suc i) batch xs)
    where
      go :
          (out : Option String × Site P)
          → SiteEvolves s out.1
          → ((s' : Site P) → SiteEvolves s' (apply_results clock (suc i) batch xs s').1)
          → SiteEvolves s
              (elim out.0 as (λ _. Option String × Site P) [
                | some message ↦ (some message, out.1)
                | none ↦ apply_results clock (suc i) batch xs out.1
              ]).1
      go (none, s') e rest = HeapEvolves-trans e (rest s')
      go (some m, s') e rest = e

  after_handoff-SiteEvolves :
      (r : ℕ) (error : String) (t : Instant) (s : Site P) (out : Handoff × P × Heap)
      → HeapEvolves s.heap out.2
      → SiteEvolves s (after_handoff r error t s out)
  after_handoff-SiteEvolves r error t s (accepted, p, h) e = e
  after_handoff-SiteEvolves r error t s (refused, p, h) e =
      HeapEvolves-trans e (fail-HeapEvolves error none t.wall r h)
  after_handoff-SiteEvolves r error t s (raised, p, h) e =
      HeapEvolves-trans e (fail-HeapEvolves error none t.wall r h)

  module _ (retry_handler : ℕ → Instant → P → Heap → Handoff × P × Heap)
      (handler_evolves : (r : ℕ) (t : Instant) (p : P) (h : Heap)
        → HeapEvolves h (retry_handler r t p h).2) where
    pub finish_or_retry-SiteEvolves :
        (error : String) (allowed : Bool) (t : Instant) (r : ℕ) (s : Site P)
        → SiteEvolves s (finish_or_retry retry_handler error allowed t r s)
    unfolding finish_or_retry
    finish_or_retry-SiteEvolves error allowed t r s =
        if-SiteEvolves (is_terminal_at s.heap r) s.heap _ _ (HeapEvolves-refl s.heap) (
          if-SiteEvolves (is_expired (s.heap r) t.monotonic) s.heap _ _
            (fail-HeapEvolves _ _ t.wall r s.heap)
            (if-SiteEvolves (is_durable (s.heap r).input_data) s.heap _ _
              (fail-HeapEvolves _ _ t.wall r s.heap)
              (if-SiteEvolves allowed s.heap _ _
                (after_handoff-SiteEvolves r error t s (retry_handler r t s.pool s.heap)
                  (handler_evolves r t s.pool s.heap))
                (fail-HeapEvolves error none t.wall r s.heap))))

    pub finish_all-SiteEvolves :
        (error : String) (allowed : Bool) (clock : ℕ → Instant) (i : ℕ) (rs : List ℕ) (s : Site P)
        → SiteEvolves s (finish_all retry_handler error allowed clock i rs s)
    unfolding finish_all
    finish_all-SiteEvolves error allowed clock i [] s = HeapEvolves-refl s.heap
    finish_all-SiteEvolves error allowed clock i (r ∷ rs) s =
        HeapEvolves-trans (finish_or_retry-SiteEvolves error allowed (clock i) r s) (
          finish_all-SiteEvolves error allowed clock (suc i) rs
            (finish_or_retry retry_handler error allowed (clock i) r s))

    module _ (e : Readings) where
      after_results-SiteEvolves :
          (batch : List ℕ) (out : Option String × Site P)
          → SiteEvolves out.1 (after_results retry_handler e batch out)
      after_results-SiteEvolves batch (none, s) =
          fail_omitted-HeapEvolves e.omit_clock 0 batch s.heap
      after_results-SiteEvolves batch (some m, s) = finish_all-SiteEvolves m _ e.end_clock 0 batch s

      pub reconcile-SiteEvolves :
          (batch : List ℕ) (out : RpcOutcome) (s : Site P)
          → SiteEvolves s (reconcile retry_handler e batch out s)
      unfolding reconcile
      reconcile-SiteEvolves batch (response xs) s =
          HeapEvolves-trans (apply_results-SiteEvolves e.result_clock 0 batch xs s)
            (after_results-SiteEvolves batch (apply_results e.result_clock 0 batch xs s))
      reconcile-SiteEvolves batch (rpc_error deadline_exceeded m) s =
          fail_expired-HeapEvolves e.end_clock batch s.heap
      reconcile-SiteEvolves batch (rpc_error unavailable m) s =
          finish_all-SiteEvolves m (may_retry e unavailable) e.end_clock 0 batch s
      reconcile-SiteEvolves batch (rpc_error cancelled m) s =
          finish_all-SiteEvolves m (may_retry e cancelled) e.end_clock 0 batch s
      reconcile-SiteEvolves batch (rpc_error other_code m) s =
          finish_all-SiteEvolves m (may_retry e other_code) e.end_clock 0 batch s
      reconcile-SiteEvolves batch (other_error v m) s =
          finish_all-SiteEvolves m (e.stop_after && e.policy_after && v) e.end_clock 0 batch s

      module _ (rpc : List TaskRequest → ℕ → Site P → RpcOutcome × Site P)
          (rpc_evolves : (qs : List TaskRequest) (n : ℕ) (s : Site P)
            → SiteEvolves s (rpc qs n s).1) where
        pub dispatch-SiteEvolves :
            (batch : List ℕ) (s : Site P) → SiteEvolves s (dispatch retry_handler e rpc batch s)
        unfolding dispatch
        dispatch-SiteEvolves batch s =
            let h = each_at (λ i. mark_processing (e.start_clock i).wall) 0 batch s.heap in
            let qs = make_requests e.budget_clock 0 batch h in
            let n = rpc_timeout qs in
            let started : HeapEvolves s.heap h =
              each_at-HeapEvolves _ (λ i. mark_processing-Evolves (e.start_clock i).wall) 0 batch
                s.heap in
            HeapEvolves-trans started (
              if-SiteEvolves (leb n 0) h _ _ (fail_expired-HeapEvolves e.end_clock batch h) (
                HeapEvolves-trans (rpc_evolves qs n (with_heap s h)) (
                  reconcile-SiteEvolves batch (rpc qs n (with_heap s h)).0
                    (rpc qs n (with_heap s h)).1)))

        pub process_live-SiteEvolves :
            (live : List ℕ) (s : Site P) → SiteEvolves s (process_live retry_handler e rpc live s)
        unfolding process_live
        process_live-SiteEvolves live s =
            if-SiteEvolves (is_empty live) s.heap _ _ (HeapEvolves-refl s.heap) (
              if-SiteEvolves e.stop_before s.heap _ _
                (finish_all-SiteEvolves "worker removed" e.policy_before e.end_clock 0 live s)
                (dispatch-SiteEvolves live s))

        -- The dispatch of a batch reopens no terminal task and changes no task's identity, payload
        -- or deadline, on every path of the call, its errors and the retries that it asks for
        -- included, if the retry handler and the threads that run during the call do neither.
        pub process-SiteEvolves :
            (batch : List ℕ) (s : Site P) → SiteEvolves s (process retry_handler e rpc batch s)
        unfolding process
        process-SiteEvolves batch s =
            let live = split_live e.live_clock 0 batch s.heap in
            HeapEvolves-trans (split_live-HeapEvolves e.live_clock 0 batch s.heap)
              (process_live-SiteEvolves live.0 (with_heap s live.1))
