-- ===== src/Pool.antt =====
-- system/grpc_worker_pool.py: `GrpcWorkerPool`, the membership and the routing of batches. The
-- pool's lock makes each locked part one step; where a method works outside the lock, `meanwhile`
-- is what other threads do to the pool before it goes on.
pub mod Placement
pub mod Routing
pub mod Submission
pub mod Handoffs
pub mod Dispatch
pub mod Membership
use latency_aware_inference.Common.{
  ℕ, zero, suc, ◌+◌, ◌%◌, Bool, true, false, not, ◌&&◌, ◌||◌, Option, none, some, String, str_eq,
  List, [], ◌∷◌, ◌++◌, length, map, select, is_empty, get_elem?, ◌==◌, if◌then◌else◌,
}
use latency_aware_inference.Task.{Task, mark_failed, try_reserve_retry}
use latency_aware_inference.Task.Payload.{Value, null, bool, int, str, arr, obj, get}
use latency_aware_inference.Task.Heap.{Heap, on, write}
use latency_aware_inference.Proxy.{
  GrpcWorker, new_worker, is_ready, try_submit, busy, begin_stop, set_routing_state,
}
use latency_aware_inference.Proxy.Process.{Instant, Handoff, accepted, refused, each_at}

-- zookeeper_registry.py
pub record WorkerInfo : Type 0 where
  pub address : String
  pub state : String

pub record Pool : Type 0 where
  pub workers : List GrpcWorker
  pub rr_index : ℕ
  pub stopping : Bool
  pub capabilities : Option (List (String × List String))
  pub next_identity : ℕ
  pub retry_submissions : ℕ
  pub worker_count : ℕ

-- `input.get("kind", "simulation")`; what is no object is a simulation.
unfoldable pub kind : Value → Value
kind (obj fields) = elim (get "kind" fields) [ none ↦ str "simulation" | some v ↦ v ]
kind _ = str "simulation"

abbrev pub contains : String → List String → Bool
contains s [] = false
contains s (x ∷ xs) = str_eq x s || contains s xs

-- `capabilities.get(worker_id, set())`
abbrev pub kinds_of : String → List (String × List String) → List String
kinds_of id [] = []
kinds_of id ((j, kinds) ∷ rest) = if str_eq j id then kinds else kinds_of id rest

abbrev pub supported_kinds : Option (List (String × List String)) → String → List String
supported_kinds none id = "simulation" ∷ "synthx_v73" ∷ []
supported_kinds (some m) id = kinds_of id m

abbrev pub is_supported_kind : List String → Value → Bool
is_supported_kind kinds (str s) = contains s kinds
is_supported_kind kinds _ = false

unfoldable pub supports : Pool → GrpcWorker → Value → Bool
unfolding kind
supports p w input = is_supported_kind (supported_kinds p.capabilities w.worker_id) (kind input)

-- The ready proxies that can run a task of this payload.
unfoldable pub ready_for : Pool → Value → List GrpcWorker
unfolding supports
ready_for p input = select (λ w. is_ready w && supports p w input) p.workers

abbrev pub prefer : List GrpcWorker → List GrpcWorker → List GrpcWorker
prefer [] ready = ready
prefer (w ∷ ws) ready = w ∷ ws

-- The idle ones if there are any, else all of them, in turn.
unfoldable pub route : Pool → Value → Option GrpcWorker
unfolding ready_for
route p input =
    let ready = ready_for p input in
    let pool = prefer (select (λ w. not (busy w)) ready) ready in
    get_elem? pool (p.rr_index % length pool)

-- `worker.try_submit(batch)` on one object. A proxy that has left the pool was stopped before,
-- and refuses.
unfoldable pub offer : ℕ → List ℕ → List GrpcWorker → Bool × List GrpcWorker
unfolding try_submit
offer object batch [] = (false, [])
offer object batch (w ∷ ws) =
    let (taken, ws') = offer object batch ws in
    if w.identity == object
    then ((try_submit w batch).0, (try_submit w batch).1 ∷ ws)
    else (taken, w ∷ ws')

-- The objects in turn, until one accepts.
unfoldable pub offer_in : List ℕ → List ℕ → List GrpcWorker → Bool × List GrpcWorker
unfolding offer
offer_in [] batch ws = (false, ws)
offer_in (object ∷ objects) batch ws =
    let first = offer object batch ws in
    let rest = offer_in objects batch ws in if first.0 then first else rest

abbrev pub identities : List GrpcWorker → List ℕ
identities = map λ w. w.identity

-- The object as it is in the list; one that has left the pool refuses whatever it is.
abbrev pub current : GrpcWorker → List GrpcWorker → GrpcWorker
current w [] = w
current w (v ∷ vs) = if v.identity == w.identity then v else current w vs

abbrev pub busy_in : List GrpcWorker → GrpcWorker → Bool
busy_in ws w = busy (current w ws)

-- `for task in batch: task.mark_failed(...)`
abbrev pub fail_batch : String → String → (ℕ → Instant) → List ℕ → Heap → Heap
fail_batch message code clock = each_at (λ i. mark_failed message (some code) (clock i).wall) 0

-- The end of `_submit_compatible`, after `worker` refused: the others, then the failure.
unfoldable pub submit_elsewhere :
    GrpcWorker → (ℕ → Instant) → Value → List ℕ → Pool → Heap → Pool × Heap
unfolding ready_for offer_in
submit_elsewhere worker clock input batch p h =
    let others = select (λ w. not (w.identity == worker.identity)) (ready_for p input) in
    let (taken, ws) = offer_in (identities others) batch p.workers in
    if taken
    then (record p { workers = ws }, h)
    else (p, fail_batch "all workers at capacity" "overloaded" clock batch h)

module _ (meanwhile : Pool → Pool) where
  -- `_submit_compatible`, on a batch whose first task has the payload `input`.
  unfoldable pub submit_compatible : (ℕ → Instant) → Value → List ℕ → Pool → Heap → Pool × Heap
  unfolding route offer submit_elsewhere
  submit_compatible clock input batch p h = elim (route p input) [
    | none ↦ (p, fail_batch "no ready workers available" "overloaded" clock batch h)
    | some worker ↦
        (let p' = meanwhile (record p { rr_index = p.rr_index + 1 }) in
          let (taken, ws) = offer worker.identity batch p'.workers in
          if taken
          then (record p' { workers = ws }, h)
          else submit_elsewhere worker clock input batch (meanwhile p') h)
  ]

  -- `try_resubmit`, one handoff to another proxy. The candidates are chosen under the lock, and
  -- looked at and offered the task after other threads may have run.
  unfoldable pub try_resubmit : String → ℕ → Instant → Pool → Heap → Handoff × Pool × Heap
  unfolding ready_for offer_in
  try_resubmit failed task t p h =
      let candidates =
        select (λ w. not (str_eq w.worker_id failed)) (ready_for p (h task).input_data) in
      let (granted, reserved) = try_reserve_retry t.monotonic (h task) in
      let p' = meanwhile p in
      let h' = write task reserved h in
      let order =
        select (λ w. not (busy_in p'.workers w)) candidates
        ++ select (busy_in p'.workers) candidates in
      let (taken, ws) = offer_in (identities order) (task ∷ []) p'.workers in
      if p.stopping || is_empty candidates
      then (refused, p, h)
      else if not granted
      then (refused, p, h')
      else if taken
      then (accepted, record p' { workers = ws; retry_submissions = p'.retry_submissions + 1 }, h')
      else (refused, p', h')

-- `groups.setdefault(kind, []).append(task)`
abbrev pub add_to_group : String → ℕ → List (String × List ℕ) → List (String × List ℕ)
add_to_group k r [] = (k, r ∷ []) ∷ []
add_to_group k r ((j, rs) ∷ rest) =
    if str_eq j k then (j, rs ++ r ∷ []) ∷ rest else (j, rs) ∷ add_to_group k r rest

abbrev pub kind_name : Value → Option String
kind_name (str s) = some s
kind_name _ = none

-- One round of the first loop of `submit`: a task whose kind is no string fails.
unfoldable pub group_task :
    Instant → ℕ → List (String × List ℕ) → Heap → List (String × List ℕ) × Heap
unfolding kind
group_task t r groups h = elim (kind_name (kind (h r).input_data)) [
  | none ↦ (groups, on r (mark_failed "invalid task kind" (some "invalid_spec") t.wall) h)
  | some k ↦ (add_to_group k r groups, h)
]

unfoldable pub group_tasks :
    (ℕ → Instant) → ℕ → List ℕ → List (String × List ℕ) → Heap → List (String × List ℕ) × Heap
unfolding group_task
group_tasks clock i [] groups h = (groups, h)
group_tasks clock i (r ∷ rs) groups h =
    let (groups', h') = group_task (clock i) r groups h in group_tasks clock (suc i) rs groups' h'

unfoldable pub submit_groups :
    (Pool → Pool) → (ℕ → Instant) → List (String × List ℕ) → Pool → Heap → Pool × Heap
unfolding submit_compatible
submit_groups meanwhile clock [] p h = (p, h)
submit_groups meanwhile clock ((k, []) ∷ rest) p h = submit_groups meanwhile clock rest p h
submit_groups meanwhile clock ((k, r ∷ rs) ∷ rest) p h =
    let (p', h') = submit_compatible meanwhile clock (h r).input_data (r ∷ rs) p h in
    submit_groups meanwhile clock rest p' h'

-- `GrpcWorkerPool.submit`
unfoldable pub submit : (Pool → Pool) → (ℕ → Instant) → List ℕ → Pool → Heap → Pool × Heap
unfolding group_tasks submit_groups
submit meanwhile clock batch p h =
    let (groups, h') = group_tasks clock 0 batch [] h in submit_groups meanwhile clock groups p h'

-- `wid in workers` of the snapshot.
abbrev pub listed : String → List (String × WorkerInfo) → Bool
listed id [] = false
listed id ((j, info) ∷ rest) = str_eq j id || listed id rest

abbrev pub member : String → List GrpcWorker → Bool
member id [] = false
member id (w ∷ ws) = str_eq w.worker_id id || member id ws

-- `self._workers[wid].set_routing_state(...)`
abbrev pub set_state_of : String → String → List GrpcWorker → List GrpcWorker
set_state_of id state [] = []
set_state_of id state (w ∷ ws) =
    if str_eq w.worker_id id then set_routing_state state w ∷ ws else w ∷ set_state_of id state ws

-- One round of the first loop of `_update_workers`: a new proxy if needed, then its state.
unfoldable pub admit : String → WorkerInfo → Pool → Pool
admit id info p =
    let grown = if member id p.workers then p else record p {
      workers = p.workers ++ new_worker p.next_identity id info.address ∷ [];
      next_identity = p.next_identity + 1;
    } in
    record grown { workers = set_state_of id info.state grown.workers }

unfoldable pub admit_all : List (String × WorkerInfo) → Pool → Pool
unfolding admit
admit_all [] p = p
admit_all ((id, info) ∷ rest) p = admit_all rest (admit id info p)

-- `_update_workers` under the lock: the pool, and the removed proxies, stopped.
unfoldable pub update_workers : List (String × WorkerInfo) → Pool → Pool × List GrpcWorker
unfolding admit_all
update_workers snapshot p =
    if p.stopping
    then (p, [])
    else (let grown = admit_all snapshot p in
        let kept = select (λ w. listed w.worker_id snapshot) grown.workers in
        let gone = select (λ w. not (listed w.worker_id snapshot)) grown.workers in
        (record grown { workers = kept; worker_count = length kept }, map (begin_stop true) gone))

-- `stop` under the lock: the pool, and its proxies, stopped without retries.
unfoldable pub stop_pool : Pool → Pool × List GrpcWorker
stop_pool p =
    (record p { stopping = true; workers = []; worker_count = 0 }, map (begin_stop false) p.workers)

unfoldable pub has_workers : Pool → Bool
has_workers p = if p.stopping then false else not (is_empty (select is_ready p.workers))
