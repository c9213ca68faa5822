-- ===== src/Proxy/Settled.antt =====
-- The tasks of a batch after a call that fails, or a stop before it.
use latency_aware_inference.Common.{
  ℕ, suc, ◌≡◌, refl, Bool, ◌&&◌, none, some, String, List, [], ◌∷◌, leb, if_cases, inl, inr, ◌⊎◌,
  All,
}
use latency_aware_inference.Task.{is_expired, mark_processing}
use latency_aware_inference.Task.Heap.{Heap, IsTerminal, HeapEvolves, HeapEvolves-IsTerminal}
use latency_aware_inference.Proxy.Process.{
  Instant, Handoff, accepted, refused, raised, TaskRequest, RpcOutcome, response, rpc_error,
  other_error, deadline_exceeded, unavailable, cancelled, other_code, Site, Readings,
  is_terminal_at, split_live, each_at, make_requests, rpc_timeout, is_durable, with_heap,
  after_handoff, finish_or_retry, finish_all, may_retry, fail_expired, reconcile, dispatch,
  process_live, process,
}
use latency_aware_inference.Proxy.Evolution.{
  SiteEvolves, finish_all-SiteEvolves, process_live-SiteEvolves,
}
use latency_aware_inference.Proxy.Ending.{fail-IsTerminal, fail_late-All, split_live-All, All-map}

-- The outcomes other than a response.
abbrev pub IsFailure : RpcOutcome → Type 0
IsFailure (response _) = ⊥
IsFailure _ = Unit

module _ {P : Type 0} (Queued : P → ℕ → Type 0)
    (retry_handler : ℕ → Instant → P → Heap → Handoff × P × Heap)
    (handler_evolves : (r : ℕ) (t : Instant) (p : P) (h : Heap)
      → HeapEvolves h (retry_handler r t p h).2)
    (handler_queues : (r : ℕ) (t : Instant) (p : P) (h : Heap)
      → (retry_handler r t p h).0 ≡ accepted
      → Queued (retry_handler r t p h).1 r)
    (handler_keeps : (r : ℕ) (t : Instant) (p : P) (h : Heap) (q : ℕ)
      → Queued p q
      → Queued (retry_handler r t p h).1 q) where
  abbrev pub IsSettled : Site P → ℕ → Type 0
  IsSettled s r = IsTerminal s.heap r ⊎ Queued s.pool r

  after_handoff-IsSettled :
      (r : ℕ) (error : String) (t : Instant) (s : Site P) (out : Handoff × P × Heap)
      → (out.0 ≡ accepted → Queued out.1 r)
      → IsSettled (after_handoff r error t s out) r
  after_handoff-IsSettled r error t s (accepted, p, h) queues = inr (queues refl)
  after_handoff-IsSettled r error t s (refused, p, h) queues =
      inl (fail-IsTerminal error none t.wall r h)
  after_handoff-IsSettled r error t s (raised, p, h) queues =
      inl (fail-IsTerminal error none t.wall r h)

  after_handoff-pool :
      (r : ℕ) (error : String) (t : Instant) (s : Site P) (out : Handoff × P × Heap)
      → (after_handoff r error t s out).pool ≡ out.1
  after_handoff-pool r error t s (accepted, p, h) = refl
  after_handoff-pool r error t s (refused, p, h) = refl
  after_handoff-pool r error t s (raised, p, h) = refl

  finish_or_retry-keeps :
      (error : String) (allowed : Bool) (t : Instant) (r q : ℕ) (s : Site P)
      → Queued s.pool q
      → Queued (finish_or_retry retry_handler error allowed t r s).pool q
  unfolding finish_or_retry
  finish_or_retry-keeps error allowed t r q s w =
      let Q : Site P → Type 0 = λ u. Queued u.pool q in
      if_cases Q (is_terminal_at s.heap r) _ _ (λ _. w)
        λ _.
          if_cases Q (is_expired (s.heap r) t.monotonic) _ _ (λ _. w)
            λ _.
              if_cases Q (is_durable (s.heap r).input_data) _ _ (λ _. w)
                λ _.
                  if_cases Q allowed _ _
                    (λ _.
                      rw (after_handoff-pool r error t s (retry_handler r t s.pool s.heap))
                        (handler_keeps r t s.pool s.heap q w))
                    (λ _. w)

  finish_or_retry-IsSettled :
      (error : String) (allowed : Bool) (t : Instant) (r : ℕ) (s : Site P)
      → IsSettled (finish_or_retry retry_handler error allowed t r s) r
  unfolding finish_or_retry
  finish_or_retry-IsSettled error allowed t r s =
      let Q : Site P → Type 0 = λ u. IsSettled u r in
      if_cases Q (is_terminal_at s.heap r) _ _ inl λ _.
        if_cases Q (is_expired (s.heap r) t.monotonic) _ _
          (λ _. inl (
            fail-IsTerminal "request deadline exceeded" (some "deadline_exceeded") t.wall r s.heap))
          λ _.
            if_cases Q (is_durable (s.heap r).input_data) _ _
              (λ _. inl (fail-IsTerminal error (some "transport_error") t.wall r s.heap))
              λ _.
                if_cases Q allowed _ _
                  (λ _.
                    after_handoff-IsSettled r error t s (retry_handler r t s.pool s.heap)
                      (handler_queues r t s.pool s.heap))
                  (λ _. inl (fail-IsTerminal error none t.wall r s.heap))

  finish_all-keeps :
      (error : String) (allowed : Bool) (clock : ℕ → Instant) (i : ℕ) (rs : List ℕ) (s : Site P)
      (q : ℕ)
      → Queued s.pool q
      → Queued (finish_all retry_handler error allowed clock i rs s).pool q
  unfolding finish_all
  finish_all-keeps error allowed clock i [] s q w = w
  finish_all-keeps error allowed clock i (r ∷ rs) s q w =
      finish_all-keeps error allowed clock (suc i) rs
        (finish_or_retry retry_handler error allowed (clock i) r s) q
        (finish_or_retry-keeps error allowed (clock i) r q s w)

  pub finish_all-IsSettled :
      (error : String) (allowed : Bool) (clock : ℕ → Instant) (i : ℕ) (rs : List ℕ) (s : Site P)
      → All (IsSettled (finish_all retry_handler error allowed clock i rs s)) rs
  unfolding finish_all
  finish_all-IsSettled error allowed clock i [] s = tt
  finish_all-IsSettled error allowed clock i (r ∷ rs) s =
      let s' = finish_or_retry retry_handler error allowed (clock i) r s in
      (
        keep (finish_or_retry-IsSettled error allowed (clock i) r s),
        finish_all-IsSettled error allowed clock (suc i) rs s',
      )
    where
      keep :
          IsSettled (finish_or_retry retry_handler error allowed (clock i) r s) r
          → IsSettled
              (finish_all retry_handler error allowed clock
                (suc i)
                rs
                (finish_or_retry retry_handler error allowed (clock i) r s))
              r
      keep (inl ended) = inl (
          HeapEvolves-IsTerminal
            (finish_all-SiteEvolves retry_handler handler_evolves error allowed clock (suc i) rs
              (finish_or_retry retry_handler error allowed (clock i) r s))
            r ended)
      keep (inr waits) = inr (finish_all-keeps error allowed clock (suc i) rs _ r waits)

  module _ (e : Readings) where
    late-IsSettled :
        (batch : List ℕ) (s : Site P) (h : Heap)
        → All (IsSettled (with_heap s (fail_expired e.end_clock batch h))) batch
    late-IsSettled batch s h =
        All-map (IsTerminal (fail_expired e.end_clock batch h)) _ (λ q f. inl f) batch
          (fail_late-All e.end_clock 0 batch h)

    reconcile-IsSettled :
        (batch : List ℕ) (out : RpcOutcome) (s : Site P)
        → IsFailure out
        → All (IsSettled (reconcile retry_handler e batch out s)) batch
    unfolding reconcile
    reconcile-IsSettled batch (response xs) s f = absurd f
    reconcile-IsSettled batch (rpc_error deadline_exceeded m) s f = late-IsSettled batch s s.heap
    reconcile-IsSettled batch (rpc_error unavailable m) s f =
        finish_all-IsSettled m (may_retry e unavailable) e.end_clock 0 batch s
    reconcile-IsSettled batch (rpc_error cancelled m) s f =
        finish_all-IsSettled m (may_retry e cancelled) e.end_clock 0 batch s
    reconcile-IsSettled batch (rpc_error other_code m) s f =
        finish_all-IsSettled m (may_retry e other_code) e.end_clock 0 batch s
    reconcile-IsSettled batch (other_error v m) s f =
        finish_all-IsSettled m (e.stop_after && e.policy_after && v) e.end_clock 0 batch s

    module _ (rpc : List TaskRequest → ℕ → Site P → RpcOutcome × Site P)
        (rpc_evolves : (qs : List TaskRequest) (n : ℕ) (s : Site P) → SiteEvolves s (rpc qs n s).1)
        (rpc_fails : (qs : List TaskRequest) (n : ℕ) (s : Site P) → IsFailure (rpc qs n s).0) where
      dispatch-IsSettled :
          (batch : List ℕ) (s : Site P)
          → All (IsSettled (dispatch retry_handler e rpc batch s)) batch
      unfolding dispatch
      dispatch-IsSettled batch s =
          let h = each_at (λ i. mark_processing (e.start_clock i).wall) 0 batch s.heap in
          let qs = make_requests e.budget_clock 0 batch h in
          let out = rpc qs (rpc_timeout qs) (with_heap s h) in
          if_cases (λ (u : Site P). All (IsSettled u) batch) (leb (rpc_timeout qs) 0)
            (with_heap s (fail_expired e.end_clock batch h))
            (reconcile retry_handler e batch out.0 out.1) (λ _. late-IsSettled batch s h)
            (λ _.
              reconcile-IsSettled batch out.0 out.1 (rpc_fails qs (rpc_timeout qs) (with_heap s h)))

      process_live-IsSettled :
          (live : List ℕ) (s : Site P)
          → All (IsSettled (process_live retry_handler e rpc live s)) live
      unfolding process_live
      process_live-IsSettled [] s = tt
      process_live-IsSettled (r ∷ rs) s =
          if_cases (λ (u : Site P). All (IsSettled u) (r ∷ rs)) e.stop_before _ _
            (λ _. finish_all-IsSettled "worker removed" e.policy_before e.end_clock 0 (r ∷ rs) s)
            (λ _. dispatch-IsSettled (r ∷ rs) s)

      -- A batch whose call fails, whatever the failure, or whose proxy is stopped before the call,
      -- leaves each of its tasks terminal, or waiting where the retry handler says that it queued
      -- it.
      pub process-IsSettled :
          (batch : List ℕ) (s : Site P)
          → All (IsSettled (process retry_handler e rpc batch s)) batch
      unfolding process
      process-IsSettled batch s =
          let live = split_live e.live_clock 0 batch s.heap in
          let s' = with_heap s live.1 in
          split_live-All (IsSettled (process_live retry_handler e rpc live.0 s')) e.live_clock 0
            batch s.heap
            (λ r ended. inl (
              HeapEvolves-IsTerminal
                (process_live-SiteEvolves retry_handler handler_evolves e rpc rpc_evolves live.0 s')
                r ended))
            (process_live-IsSettled live.0 s')
