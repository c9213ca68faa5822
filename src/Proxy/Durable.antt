-- ===== src/Proxy/Durable.antt =====
-- Durable tasks, those that a gateway of their own retries, at the end of their dispatch.
use latency_aware_inference.Common.{
  ℕ, suc, ◌≡◌, Bool, true, not, ◌&&◌, Option, none, some, String, List, [], ◌∷◌, leb, if◌then◌else◌,
  Bool-cases, if_cases, inl, inr, All,
}
use latency_aware_inference.Task.{is_expired, mark_processing, mark_failed}
use latency_aware_inference.Task.Lifecycle.{mark_processing-Evolves}
use latency_aware_inference.Task.Heap.{
  Heap, on, IsTerminal, HeapEvolves, HeapEvolves-refl, HeapEvolves-trans, HeapEvolves-IsTerminal,
}
use latency_aware_inference.Proxy.Process.{
  Instant, Handoff, TaskRequest, RpcOutcome, response, rpc_error, other_error, deadline_exceeded,
  unavailable, cancelled, other_code, Site, Readings, is_terminal_at, split_live, each_at,
  make_requests, rpc_timeout, apply_results, is_durable, fail_omitted, with_heap, finish_or_retry,
  finish_all, may_retry, fail_expired, after_results, reconcile, dispatch, process_live, process,
}
use latency_aware_inference.Proxy.Evolution.{
  fail-HeapEvolves, split_live-HeapEvolves, fail_omitted-HeapEvolves, each_at-HeapEvolves,
  if-HeapEvolves, SiteEvolves, finish_or_retry-SiteEvolves, finish_all-SiteEvolves,
  apply_results-SiteEvolves, process_live-SiteEvolves,
}
use latency_aware_inference.Proxy.Ending.{fail-IsTerminal, fail_late-All, split_live-All, All-map}

abbrev pub IsDurableAt : Heap → ℕ → Type 0
IsDurableAt h r = is_durable (h r).input_data ≡ true

IsDurableAt-evolves : {h k : Heap} → HeapEvolves h k → (r : ℕ) → IsDurableAt h r → IsDurableAt k r
IsDurableAt-evolves e r d = rw (e.at r).same_input d

-- A durable task that a response leaves out is failed.
omit-IsTerminal :
    (t : Instant) (r : ℕ) (h : Heap)
    → IsDurableAt h r
    → IsTerminal
        (if is_durable (h r).input_data && not (is_terminal_at h r)
          then on r (mark_failed "worker omitted task result" (some "transport_error") t.wall) h
          else h)
        r
omit-IsTerminal t r h d = elim (Bool-cases (is_terminal_at h r)) [
  | inl ended ↦ rw (d, ended) ended
  | inr live ↦
      rw (d, live)
        (fail-IsTerminal "worker omitted task result" (some "transport_error") t.wall r h)
]

fail_omitted-All :
    (clock : ℕ → Instant) (i : ℕ) (rs : List ℕ) (h : Heap)
    → All (λ r. IsDurableAt h r → IsTerminal (fail_omitted clock i rs h) r) rs
unfolding fail_omitted
fail_omitted-All clock i [] h = tt
fail_omitted-All clock i (r ∷ rs) h =
    let k : Heap =
      if is_durable (h r).input_data && not (is_terminal_at h r)
      then on r (mark_failed "worker omitted task result" (some "transport_error") (clock i).wall) h
      else h in
    let step : HeapEvolves h k =
      if-HeapEvolves (is_durable (h r).input_data && not (is_terminal_at h r))
        (fail-HeapEvolves "worker omitted task result" (some "transport_error") (clock i).wall r h)
        (HeapEvolves-refl h) in
    (
      (λ d.
          HeapEvolves-IsTerminal (fail_omitted-HeapEvolves clock (suc i) rs k) r
            (omit-IsTerminal (clock i) r h d)),
      All-map (λ q. IsDurableAt k q → IsTerminal (fail_omitted clock (suc i) rs k) q)
          (λ q. IsDurableAt h q → IsTerminal (fail_omitted clock (suc i) rs k) q)
          (λ q f d. f (IsDurableAt-evolves step q d)) rs (fail_omitted-All clock (suc i) rs k),
    )

module _ {P : Type 0} (retry_handler : ℕ → Instant → P → Heap → Handoff × P × Heap)
    (handler_evolves : (r : ℕ) (t : Instant) (p : P) (h : Heap)
      → HeapEvolves h (retry_handler r t p h).2) where
  finish_or_retry-durable :
      (error : String) (allowed : Bool) (t : Instant) (r : ℕ) (s : Site P)
      → IsDurableAt s.heap r
      → IsTerminal (finish_or_retry retry_handler error allowed t r s).heap r
  unfolding finish_or_retry
  finish_or_retry-durable error allowed t r s d = elim (Bool-cases (is_terminal_at s.heap r)) [
    | inl ended ↦ rw ended ended
    | inr live ↦ elim (Bool-cases (is_expired (s.heap r) t.monotonic)) [
      | inl late ↦ rw (live, late) (fail-IsTerminal _ _ t.wall r s.heap)
      | inr early ↦ rw (live, early, d) (fail-IsTerminal _ _ t.wall r s.heap)
    ]
  ]

  finish_all-durable :
      (error : String) (allowed : Bool) (clock : ℕ → Instant) (i : ℕ) (rs : List ℕ) (s : Site P)
      → All
          (λ r.
            IsDurableAt s.heap r
            → IsTerminal (finish_all retry_handler error allowed clock i rs s).heap r)
          rs
  unfolding finish_all
  finish_all-durable error allowed clock i [] s = tt
  finish_all-durable error allowed clock i (r ∷ rs) s =
      let s' = finish_or_retry retry_handler error allowed (clock i) r s in
      let step =
        finish_or_retry-SiteEvolves retry_handler handler_evolves error allowed (clock i) r s in
      let rest = finish_all retry_handler error allowed clock (suc i) rs s' in
      (
        (λ d.
            HeapEvolves-IsTerminal
              (finish_all-SiteEvolves retry_handler handler_evolves error allowed clock (suc i) rs
                s')
              r (finish_or_retry-durable error allowed (clock i) r s d)),
        All-map (λ q. IsDurableAt s'.heap q → IsTerminal rest.heap q)
            (λ q. IsDurableAt s.heap q → IsTerminal rest.heap q)
            (λ q f d. f (IsDurableAt-evolves step q d)) rs
            (finish_all-durable error allowed clock (suc i) rs s'),
      )

  module _ (e : Readings) where
    after_results-durable :
        (batch : List ℕ) (out : Option String × Site P)
        → All
            (λ r.
              IsDurableAt out.1.heap r
              → IsTerminal (after_results retry_handler e batch out).heap r)
            batch
    after_results-durable batch (none, s) = fail_omitted-All e.omit_clock 0 batch s.heap
    after_results-durable batch (some m, s) =
        finish_all-durable m (e.stop_after && e.policy_after) e.end_clock 0 batch s

    reconcile-durable :
        (batch : List ℕ) (out : RpcOutcome) (s : Site P)
        → All
            (λ r. IsDurableAt s.heap r → IsTerminal (reconcile retry_handler e batch out s).heap r)
            batch
    unfolding reconcile
    reconcile-durable batch (response xs) s =
        let out = apply_results e.result_clock 0 batch xs s in
        let end = after_results retry_handler e batch out in
        All-map (λ q. IsDurableAt out.1.heap q → IsTerminal end.heap q)
          (λ q. IsDurableAt s.heap q → IsTerminal end.heap q)
          (λ q f d.
            f (IsDurableAt-evolves (apply_results-SiteEvolves e.result_clock 0 batch xs s) q d))
          batch (after_results-durable batch out)
    reconcile-durable batch (rpc_error deadline_exceeded m) s =
        All-map (IsTerminal (fail_expired e.end_clock batch s.heap)) _ (λ q f d. f) batch
          (fail_late-All e.end_clock 0 batch s.heap)
    reconcile-durable batch (rpc_error unavailable m) s =
        finish_all-durable m (may_retry e unavailable) e.end_clock 0 batch s
    reconcile-durable batch (rpc_error cancelled m) s =
        finish_all-durable m (may_retry e cancelled) e.end_clock 0 batch s
    reconcile-durable batch (rpc_error other_code m) s =
        finish_all-durable m (may_retry e other_code) e.end_clock 0 batch s
    reconcile-durable batch (other_error v m) s =
        finish_all-durable m (e.stop_after && e.policy_after && v) e.end_clock 0 batch s

    module _ (rpc : List TaskRequest → ℕ → Site P → RpcOutcome × Site P)
        (rpc_evolves : (qs : List TaskRequest) (n : ℕ) (s : Site P)
          → SiteEvolves s (rpc qs n s).1) where
      dispatch-durable :
          (batch : List ℕ) (s : Site P)
          → All
              (λ r. IsDurableAt s.heap r → IsTerminal (dispatch retry_handler e rpc batch s).heap r)
              batch
      unfolding dispatch
      dispatch-durable batch s = elim (Bool-cases (leb (rpc_timeout (requests_of s)) 0)) [
        | inl late ↦ rw late (
            All-map (IsTerminal (fail_expired e.end_clock batch (started s))) _ (λ q f d. f) batch
              (fail_late-All e.end_clock 0 batch (started s)))
        | inr early ↦
            let out = rpc (requests_of s) (rpc_timeout (requests_of s)) (with_heap s (started s)) in
            let before : HeapEvolves s.heap out.1.heap = HeapEvolves-trans (started-HeapEvolves s) (
              rpc_evolves (requests_of s) (rpc_timeout (requests_of s))
                (with_heap s (started s))) in
            rw early (
              All-map
                (λ q.
                  IsDurableAt out.1.heap q
                  → IsTerminal (reconcile retry_handler e batch out.0 out.1).heap q)
                (λ q.
                  IsDurableAt s.heap q
                  → IsTerminal (reconcile retry_handler e batch out.0 out.1).heap q)
                (λ q f d. f (IsDurableAt-evolves before q d)) batch
                (reconcile-durable batch out.0 out.1))
      ]
        where
          started : Site P → Heap
          started s = each_at (λ i. mark_processing (e.start_clock i).wall) 0 batch s.heap

          requests_of : Site P → List TaskRequest
          requests_of s = make_requests e.budget_clock 0 batch (started s)

          started-HeapEvolves : (s : Site P) → HeapEvolves s.heap (started s)
          started-HeapEvolves s =
              each_at-HeapEvolves _ (λ i. mark_processing-Evolves (e.start_clock i).wall) 0 batch
                s.heap

      process_live-durable :
          (live : List ℕ) (s : Site P)
          → All
              (λ r.
                IsDurableAt s.heap r → IsTerminal (process_live retry_handler e rpc live s).heap r)
              live
      unfolding process_live
      process_live-durable [] s = tt
      process_live-durable (r ∷ rs) s =
          if_cases (λ (t : Site P). All (λ q. IsDurableAt s.heap q → IsTerminal t.heap q) (r ∷ rs))
            e.stop_before _ _
            (λ _. finish_all-durable "worker removed" e.policy_before e.end_clock 0 (r ∷ rs) s)
            (λ _. dispatch-durable (r ∷ rs) s)

      -- After the dispatch of a batch each of its durable tasks is terminal: on a response, on an
      -- RPC error, on any other exception, with a stopped proxy and with an exhausted budget, if the
      -- retry handler and the threads that run during the call reopen no task.
      pub process-durable :
          (batch : List ℕ) (s : Site P)
          → All
              (λ r. IsDurableAt s.heap r → IsTerminal (process retry_handler e rpc batch s).heap r)
              batch
      unfolding process
      process-durable batch s =
          let live = split_live e.live_clock 0 batch s.heap in
          let s' = with_heap s live.1 in
          let end = process_live retry_handler e rpc live.0 s' in
          split_live-All (λ r. IsDurableAt s.heap r → IsTerminal end.heap r) e.live_clock 0 batch
            s.heap
            (λ r ended d.
              HeapEvolves-IsTerminal
                (process_live-SiteEvolves retry_handler handler_evolves e rpc rpc_evolves live.0 s')
                r ended)
            (All-map (λ q. IsDurableAt live.1 q → IsTerminal end.heap q)
              (λ q. IsDurableAt s.heap q → IsTerminal end.heap q)
              (λ q f d.
                f (IsDurableAt-evolves (split_live-HeapEvolves e.live_clock 0 batch s.heap) q d))
              live.0 (process_live-durable live.0 s'))
