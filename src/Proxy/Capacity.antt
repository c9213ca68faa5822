-- ===== src/Proxy/Capacity.antt =====
-- The proxy under any interleaving of its callers and its dispatch thread.
use latency_aware_inference.Common.{
  ℕ, ◌≤◌, ◌≡◌, refl, ◌∙◌, ◌↔◌, Bool, true, false, not, ◌&&◌, some, String, str_eq, List, [], ◌∷◌,
  length, length-append, arith,
}
use latency_aware_inference.Proxy.{
  GrpcWorker, bit, is_ready, update_state_metrics, new_worker, outstanding, try_submit, begin_stop,
  set_routing_state, take_batch, clear_work, begin_rpc, end_rpc, finish_batch, retire,
}

-- Where the dispatch thread stands: it waits for a batch, works on one, or its call is in progress.
pub data Phase : Type 0 where
  waits works calls : Phase

-- One locked step, or one of the dispatch thread, which is serial: between its turns it makes at
-- most one call at a time, and finishes a batch only after its call.
pub data Step : Phase × GrpcWorker → Phase × GrpcWorker → Type 0 where
  submits : (c : Phase) (w : GrpcWorker) (batch : List ℕ) → Step (c, w) (c, (try_submit w batch).1)
  takes :
      (w : GrpcWorker) (batch : List ℕ) (w' : GrpcWorker)
      → take_batch w ≡ some (batch, w')
      → Step (waits, w) (works, w')
  clears : (w : GrpcWorker) → Step (waits, w) (waits, clear_work w)
  begins : (w : GrpcWorker) → Step (works, w) (calls, begin_rpc w)
  ends : (w : GrpcWorker) → Step (calls, w) (works, end_rpc w)
  finishes : (w : GrpcWorker) → Step (works, w) (waits, finish_batch w)
  routes :
      (c : Phase) (w : GrpcWorker) (state : String) → Step (c, w) (c, set_routing_state state w)
  stops :
      (c : Phase) (w : GrpcWorker) (retry_pending : Bool)
      → Step (c, w) (c, begin_stop retry_pending w)
  retires : (c : Phase) (w : GrpcWorker) → Step (c, w) (c, (retire w).1)

pub data Steps (x : Phase × GrpcWorker) : Phase × GrpcWorker → Type 0 where
  here : Steps x x
  next : {y z : Phase × GrpcWorker} → Steps x y → Step y z → Steps x z

abbrev pub is_working : Phase → Bool
is_working waits = false
is_working works = true
is_working calls = true

abbrev pub is_calling : Phase → Bool
is_calling waits = false
is_calling works = false
is_calling calls = true

-- At most two batches are outstanding, and the gauges tell the truth: of the queue, of the call, and
-- of the state.
pub record IsSound (x : Phase × GrpcWorker) : Type 0 where
  pub capacity : outstanding x.1 ≤ 2
  pub working : x.1.processing ≡ is_working x.0
  pub queued : x.1.queued_batches_metric ≡ length x.1.batch_queue
  pub active : x.1.active_rpcs_metric ≡ bit (is_calling x.0)
  pub ready : x.1.ready_metric ≡ bit (is_ready x.1)
  pub draining : x.1.draining_metric ≡ bit (not x.1.stopped && str_eq x.1.routing_state "DRAINING")

new_worker-IsSound : (n : ℕ) (id location : String) → IsSound (waits, new_worker n id location)
unfolding new_worker is_ready
new_worker-IsSound n id location = record {
  capacity = omega arith;
  working = refl;
  queued = refl;
  active = refl;
  ready = refl;
  draining = refl;
}

try_submit-IsSound :
    (c : Phase) (w : GrpcWorker) (batch : List ℕ)
    → IsSound (c, w)
    → IsSound (c, (try_submit w batch).1)
unfolding try_submit is_ready
try_submit-IsSound c w batch s = ground (arith, length-append w.batch_queue (batch ∷ []))

begin_stop-IsSound :
    (c : Phase) (w : GrpcWorker) (r : Bool) → IsSound (c, w) → IsSound (c, begin_stop r w)
unfolding begin_stop is_ready
begin_stop-IsSound c w r s = ground arith

set_routing_state-IsSound :
    (c : Phase) (w : GrpcWorker) (state : String)
    → IsSound (c, w)
    → IsSound (c, set_routing_state state w)
unfolding set_routing_state is_ready
set_routing_state-IsSound c w state s = ground arith

take_batch-IsSound :
    (w w' : GrpcWorker) (batch : List ℕ)
    → take_batch w ≡ some (batch, w')
    → IsSound (waits, w)
    → IsSound (works, w')
unfolding take_batch is_ready
take_batch-IsSound w w' batch e s = ground arith

pub Step-IsSound : {x y : Phase × GrpcWorker} → Step x y → IsSound x → IsSound y
unfolding clear_work begin_rpc end_rpc finish_batch retire is_ready
Step-IsSound (submits c w batch) s = try_submit-IsSound c w batch s
Step-IsSound (takes w batch w' e) s = take_batch-IsSound w w' batch e s
Step-IsSound (clears w) s = ground arith
Step-IsSound (begins w) s = ground arith
Step-IsSound (ends w) s = ground arith
Step-IsSound (finishes w) s = ground arith
Step-IsSound (routes c w state) s = set_routing_state-IsSound c w state s
Step-IsSound (stops c w r) s = begin_stop-IsSound c w r s
Step-IsSound (retires c w) s = ground arith

-- After any sequence of steps from its creation a proxy has at most two batches outstanding, and
-- its gauges are exact: that of queued batches is the length of the queue, that of active RPCs is 1
-- exactly while a call is in progress, and those of the state are its state.
pub Steps-IsSound :
    (n : ℕ) (id location : String) {x : Phase × GrpcWorker}
    → Steps (waits, new_worker n id location) x
    → IsSound x
Steps-IsSound n id location here = new_worker-IsSound n id location
Steps-IsSound n id location (next r s) = Step-IsSound s (Steps-IsSound n id location r)

-- What a stopped proxy keeps: it stays stopped, with the retry policy of the first stop.
pub record StaysStopped (w w' : GrpcWorker) : Type 0 where
  pub still_stopped : w'.stopped ≡ true
  pub same_policy : w'.retry_on_stop ≡ w.retry_on_stop

Step-StaysStopped :
    {x y : Phase × GrpcWorker} → Step x y → x.1.stopped ≡ true → StaysStopped x.1 y.1
unfolding try_submit take_batch clear_work begin_rpc end_rpc finish_batch set_routing_state
    update_state_metrics begin_stop retire
Step-StaysStopped (submits c w batch) h = ground arith
Step-StaysStopped (takes w batch w' e) h = ground arith
Step-StaysStopped (clears w) h = ground arith
Step-StaysStopped (begins w) h = ground arith
Step-StaysStopped (ends w) h = ground arith
Step-StaysStopped (finishes w) h = ground arith
Step-StaysStopped (routes c w state) h = ground arith
Step-StaysStopped (stops c w r) h = ground arith
Step-StaysStopped (retires c w) h = ground arith

-- Once stopped, a proxy stays stopped, keeps the policy that it was stopped with, and refuses
-- every batch.
pub Steps-stopped :
    {x y : Phase × GrpcWorker} (batch : List ℕ)
    → Steps x y
    → x.1.stopped ≡ true
    → (y.1.stopped ≡ true)
      × (y.1.retry_on_stop ≡ x.1.retry_on_stop)
      × (try_submit y.1 batch ≡ (false, y.1))
unfolding try_submit
Steps-stopped batch here h = (h, refl, ground arith)
Steps-stopped batch (next {y} {z} r s) h =
    let k = Steps-stopped batch r h in
    let st = Step-StaysStopped s k.0 in
    (st.still_stopped, st.same_policy ∙ k.1, ground (arith, st.still_stopped))

-- A batch is accepted exactly by a proxy that is READY, not stopped, and below two outstanding
-- batches; the batch then goes to the end of its queue, and a refusal changes nothing.
pub try_submit_iff :
    (w : GrpcWorker) (batch : List ℕ)
    → ((try_submit w batch).0 ≡ true) ↔ ((is_ready w ≡ true) × (outstanding w ≤ 1))
unfolding try_submit is_ready
try_submit_iff w batch = (λ h. ground arith, λ h. ground arith)
