-- ===== src/Proxy.antt =====
-- system/grpc_worker_pool.py: `GrpcWorker`, the proxy of one remote worker. Each method that holds
-- the proxy's lock is one function; `has_work`, `stopped` and the gauges are fields. The dispatch
-- of a batch is in Proxy/Process.
pub mod Capacity
pub mod Process
pub mod Evolution
pub mod Ending
pub mod Durable
pub mod Settled
pub mod Removal
use latency_aware_inference.Common.{
  ℕ, ◌+◌, ◌≡◌, Bool, true, false, not, ◌&&◌, ◌||◌, Option, none, some, String, str_eq, List, [],
  ◌∷◌, ◌++◌, length, leb, is_empty, if◌then◌else◌,
}

-- `identity` tells proxy objects apart, also two for one worker.
pub record GrpcWorker : Type 0 where
  pub identity : ℕ
  pub worker_id : String
  pub address : String
  pub batch_queue : List (List ℕ)
  pub has_work : Bool
  pub stopped : Bool
  pub retry_on_stop : Bool
  pub processing : Bool
  pub routing_state : String
  pub channel_open : Bool
  pub queued_batches_metric : ℕ
  pub active_rpcs_metric : ℕ
  pub ready_metric : ℕ
  pub draining_metric : ℕ
  pub metrics_removed : Bool

-- `int(flag)`
abbrev pub bit : Bool → ℕ
bit false = 0
bit true = 1

unfoldable pub is_ready : GrpcWorker → Bool
is_ready w = not w.stopped && str_eq w.routing_state "READY"

-- `_update_state_metrics`
unfoldable pub update_state_metrics : GrpcWorker → GrpcWorker
update_state_metrics w = record w {
  ready_metric = bit (not w.stopped && str_eq w.routing_state "READY");
  draining_metric = bit (not w.stopped && str_eq w.routing_state "DRAINING");
}

unfoldable pub new_worker : ℕ → String → String → GrpcWorker
unfolding update_state_metrics
new_worker object id location = update_state_metrics (record {
  identity = object;
  worker_id = id;
  address = location;
  batch_queue = [];
  has_work = false;
  stopped = false;
  retry_on_stop = false;
  processing = false;
  routing_state = "READY";
  channel_open = true;
  queued_batches_metric = 0;
  active_rpcs_metric = 0;
  ready_metric = 0;
  draining_metric = 0;
  metrics_removed = false;
})

abbrev pub outstanding : GrpcWorker → ℕ
outstanding w = bit w.processing + length w.batch_queue

unfoldable pub try_submit : GrpcWorker → List ℕ → Bool × GrpcWorker
try_submit w batch =
    if w.stopped || not (str_eq w.routing_state "READY")
    then (false, w)
    else if leb 2 (outstanding w)
    then (false, w)
    else (
      true,
      record w {
        batch_queue = w.batch_queue ++ batch ∷ [];
        queued_batches_metric = length (w.batch_queue ++ batch ∷ []);
        has_work = true;
      },
    )

unfoldable pub busy : GrpcWorker → Bool
busy w = w.processing || not (is_empty w.batch_queue)

unfoldable pub begin_stop : Bool → GrpcWorker → GrpcWorker
unfolding update_state_metrics
begin_stop retry_pending w =
    if w.stopped
    then record w { has_work = true }
    else record (update_state_metrics
        (record w { retry_on_stop = retry_pending; stopped = true })) { has_work = true }

unfoldable pub set_routing_state : String → GrpcWorker → GrpcWorker
unfolding update_state_metrics
set_routing_state state w = update_state_metrics (record w { routing_state = state })

-- `_has_work.clear()` of `_loop`, after its wait.
unfoldable pub clear_work : GrpcWorker → GrpcWorker
clear_work w = record w { has_work = false }

-- The locked part of `_loop`: the next batch, if the loop goes on.
unfoldable pub take_batch : GrpcWorker → Option (List ℕ × GrpcWorker)
take_batch w = if w.stopped then none else elim w.batch_queue [
  | [] ↦ none
  | batch ∷ rest ↦ some (
    batch,
    record w { batch_queue = rest; queued_batches_metric = length rest; processing = true },
  )
]

-- `self._active_rpcs_metric.set(1)` of `_process`, before the call, and `set(0)`, in its `finally`.
unfoldable pub begin_rpc : GrpcWorker → GrpcWorker
begin_rpc w = record w { active_rpcs_metric = 1 }

unfoldable pub end_rpc : GrpcWorker → GrpcWorker
end_rpc w = record w { active_rpcs_metric = 0 }

-- The `finally` of `_loop`.
unfoldable pub finish_batch : GrpcWorker → GrpcWorker
finish_batch w = record w { processing = false }

-- `stop` after `begin_stop`: the pending batches are taken out, and the channel is closed.
unfoldable pub retire : GrpcWorker → List (List ℕ) × GrpcWorker
retire w =
    (w.batch_queue, record w { batch_queue = []; queued_batches_metric = 0; channel_open = false })

-- The end of `stop`: the labels are removed once.
unfoldable pub remove_metrics : GrpcWorker → GrpcWorker
remove_metrics w = record w { metrics_removed = true }
