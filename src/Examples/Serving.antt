-- ===== src/Examples/Serving.antt =====
-- Dispatch, retry and routing, on two proxies and two tasks.
use latency_aware_inference.Common.{some, List, String, ◌≡◌, ◌≢◌, refl, true, [], ◌∷◌, All, ◌⊎◌}
use latency_aware_inference.Task.Heap.{IsTerminal, HeapEvolves-refl}
use latency_aware_inference.Proxy.{
  try_submit, begin_stop, new_worker, is_ready, busy, GrpcWorker, take_batch, begin_rpc,
}
use latency_aware_inference.Task.{new_task, try_reserve_retry}
use latency_aware_inference.Proxy.Process.{accepted, process}
use latency_aware_inference.Proxy.Durable.{IsDurableAt, process-durable}
use latency_aware_inference.Proxy.Capacity.{
  IsSound, waits, calls, here, next, submits, takes, begins, Steps-IsSound,
}
use latency_aware_inference.Proxy.Removal.{tasks_of, stop_worker}
use latency_aware_inference.Pool.{try_resubmit, submit, submit_compatible}
use latency_aware_inference.Pool.{WorkerInfo, member, listed, update_workers}
use latency_aware_inference.Pool.Membership.{update_workers-member}
use latency_aware_inference.Pool.Routing.{IsNamed, IsBenign, IsRouted, submit_compatible-IsRouted}
use latency_aware_inference.Pool.Submission.{Waits, submit-IsPlaced}
use latency_aware_inference.Pool.Handoffs.{try_resubmit-HeapEvolves, try_resubmit_once}
use latency_aware_inference.Pool.Dispatch.{process_failed, stop_worker-IsSettled}
use latency_aware_inference.Examples.{
  heap, instant, worker, pool, names, same, site, rpc, readings, payload,
}

named : IsNamed names pool.workers
unfolding new_worker
named = (refl, (refl, tt))

benign : IsBenign names same
benign = record { keeps_names = λ p h. h; keeps_capabilities = λ p. refl }

process_failed_example :
    All
      (λ r.
        IsTerminal (process (try_resubmit same "worker-1") readings rpc (1 ∷ 2 ∷ []) site).heap r
        ⊎ Waits
            (process (try_resubmit same "worker-1") readings rpc (1 ∷ 2 ∷ []) site).pool.workers
            r)
      (1 ∷ 2 ∷ [])
process_failed_example =
    process_failed same (λ q k w. w) "worker-1" readings rpc (λ qs n s. HeapEvolves-refl s.heap)
      (λ qs n s. tt) (1 ∷ 2 ∷ []) site

stop_worker-IsSettled_example :
    All
      (λ r.
        IsTerminal
          (stop_worker
            (try_resubmit same "worker-1")
            true
            instant
            (try_submit worker (1 ∷ 2 ∷ [])).1
            site).1.heap
          r
        ⊎ Waits
            (stop_worker
              (try_resubmit same "worker-1")
              true
              instant
              (try_submit worker (1 ∷ 2 ∷ [])).1
              site).1.pool.workers
            r)
      (tasks_of (try_submit worker (1 ∷ 2 ∷ [])).1.batch_queue)
stop_worker-IsSettled_example =
    stop_worker-IsSettled same (λ q k w. w) "worker-1" true instant
      (try_submit worker (1 ∷ 2 ∷ [])).1 site

process-durable_example :
    All
      (λ r.
        IsDurableAt heap r
        → IsTerminal (process (try_resubmit same "worker-1") readings rpc (1 ∷ 2 ∷ []) site).heap r)
      (1 ∷ 2 ∷ [])
process-durable_example =
    process-durable (try_resubmit same "worker-1")
      (λ r t p h. try_resubmit-HeapEvolves same "worker-1" r t p h) readings rpc
      (λ qs n s. HeapEvolves-refl s.heap) (1 ∷ 2 ∷ []) site

first_handoff : (try_resubmit same "worker-1" 2 (instant 0) pool heap).0 ≡ accepted
unfolding try_resubmit is_ready new_worker new_task try_reserve_retry busy
first_handoff = refl

try_resubmit_once_example :
    (try_resubmit same "worker-2" 2
      (instant 1)
      (try_resubmit same "worker-1" 2 (instant 0) pool heap).1
      (try_resubmit same "worker-1" 2 (instant 0) pool heap).2).0
    ≢ accepted
try_resubmit_once_example =
    try_resubmit_once names same same "worker-1" "worker-2" 2 (instant 0) (instant 1) pool
      (try_resubmit same "worker-1" 2 (instant 0) pool heap).1 heap
      (try_resubmit same "worker-1" 2 (instant 0) pool heap).2 benign named first_handoff
      (HeapEvolves-refl (try_resubmit same "worker-1" 2 (instant 0) pool heap).2)

submit-IsPlaced_example :
    All
      (λ r.
        IsTerminal (submit same instant (1 ∷ 2 ∷ []) pool heap).1 r
        ⊎ Waits (submit same instant (1 ∷ 2 ∷ []) pool heap).0.workers r)
      (1 ∷ 2 ∷ [])
submit-IsPlaced_example =
    submit-IsPlaced names same benign (λ p r w. w) instant (1 ∷ 2 ∷ []) pool heap named

submit_compatible-IsRouted_example :
    IsRouted same pool
      (payload 2)
      (2 ∷ [])
      heap
      (submit_compatible same instant (payload 2) (2 ∷ []) pool heap)
submit_compatible-IsRouted_example =
    submit_compatible-IsRouted names (payload 2) same instant (2 ∷ []) pool heap benign named

-- The proxy with a batch, and its dispatch thread with the batch.
abbrev loaded : GrpcWorker
loaded = (try_submit (new_worker 0 "worker-1" "host:50051") (1 ∷ [])).1

abbrev working : GrpcWorker
working = record loaded { batch_queue = []; queued_batches_metric = 0; processing = true }

loaded_taken : take_batch loaded ≡ some (1 ∷ [], working)
unfolding take_batch try_submit new_worker
loaded_taken = refl

Steps-IsSound_example : IsSound (calls, begin_rpc working)
Steps-IsSound_example = Steps-IsSound 0 "worker-1" "host:50051" (
    next
      (next (next here (submits waits (new_worker 0 "worker-1" "host:50051") (1 ∷ [])))
        (takes loaded (1 ∷ []) working loaded_taken))
      (begins working))

stopped : (begin_stop true worker).stopped ≡ true
unfolding begin_stop new_worker
stopped = refl

abbrev snapshot : List (String × WorkerInfo)
snapshot =
    ("worker-2", record { address = "host-2:50051"; state = "DRAINING" })
    ∷ ("worker-3", record { address = "host-3:50051"; state = "READY" })
    ∷ []

update_workers-member_example :
    member "worker-1" (update_workers snapshot pool).0.workers ≡ listed "worker-1" snapshot
update_workers-member_example = update_workers-member "worker-1" snapshot pool refl
