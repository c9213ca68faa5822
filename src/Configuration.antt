-- ===== src/Configuration.antt =====
-- system/config.py: `SystemConfig`; system/api_server.py: the endpoints that set it; and the settings
-- that they push to the workers, system/grpc_worker_pool.py and system/grpc_worker_server.py. `F`
-- is the type of floating-point numbers, with what the code reads of it; `narrow` is what a worker
-- reads of a number that was sent to it as a 32-bit float of the generated protocol code.
pub mod Valid
use latency_aware_inference.Common.{
  ℕ, Bool, true, false, not, ◌&&◌, ◌||◌, Option, none, some, String, str_eq, List, [], ◌∷◌, leb,
  if◌then◌else◌,
}
use latency_aware_inference.Common.Int.{ℤ, pos, negsuc}
use latency_aware_inference.Common.Result.{Result, ok, raised}
use latency_aware_inference.Common.Text.{among}

pub record SystemConfig (F : Type 0) : Type 0 where
  pub batch_size : ℕ
  pub num_workers : ℕ
  pub inference_latency_ms : F
  pub scheduler_strategy : String
  pub failure_rate : F
  pub latency_threshold_ms : F
  pub max_queue_size : ℕ
  pub host : String
  pub port : ℕ

-- One keyword argument of `update`.
pub data Change (F : Type 0) : Type 0 where
  batch_size_to num_workers_to max_queue_size_to port_to : ℕ → Change F
  inference_latency_to failure_rate_to latency_threshold_to : F → Change F
  scheduler_to host_to : String → Change F
  unknown : String → Change F

-- The settings of a worker process: `_failure_rate` and `_inference_latency_ms`.
pub record Simulation (F : Type 0) : Type 0 where
  pub failure_rate : F
  pub inference_latency_ms : F

-- The worker pool of the server: that of system/worker.py, which has no `push_config`, or the
-- members of the gRPC pool.
pub data Backend : Type 0 where
  local : Backend
  remote : List String → Backend

pub record Server (F : Type 0) : Type 0 where
  pub config : SystemConfig F
  pub backend : Backend
  pub simulations : String → Simulation F

-- A response: the value that was set; or the body is not valid, 422; or the handler raised, 500.
pub data Status (F : Type 0) : Type 0 where
  size : ℕ → Status F
  strategy : String → Status F
  rate : F → Status F
  invalid_body server_error : Status F

abbrev pub strategies : List String
strategies = "fifo" ∷ "batching" ∷ "latency_aware" ∷ []

-- `batch_size`, an integer from 1 to 512.
abbrev pub valid_size : ℤ → Option ℕ
valid_size (pos n) = if leb 1 n && leb n 512 then some n else none
valid_size (negsuc n) = none

module _ {F : Type 0} where
  abbrev pub set_attribute : Change F → SystemConfig F → Option (SystemConfig F)
  set_attribute (batch_size_to n) c = some (record c { batch_size = n })
  set_attribute (num_workers_to n) c = some (record c { num_workers = n })
  set_attribute (max_queue_size_to n) c = some (record c { max_queue_size = n })
  set_attribute (port_to n) c = some (record c { port = n })
  set_attribute (inference_latency_to x) c = some (record c { inference_latency_ms = x })
  set_attribute (failure_rate_to x) c = some (record c { failure_rate = x })
  set_attribute (latency_threshold_to x) c = some (record c { latency_threshold_ms = x })
  set_attribute (scheduler_to s) c = some (record c { scheduler_strategy = s })
  set_attribute (host_to s) c = some (record c { host = s })
  set_attribute (unknown key) c = none

  abbrev pub then_update :
      (SystemConfig F → Bool × SystemConfig F)
      → SystemConfig F
      → Option (SystemConfig F)
      → Bool × SystemConfig F
  then_update rest c none = (false, c)
  then_update rest c (some c') = rest c'

  -- `update`: the keys before an unknown one are set, then it raises.
  unfoldable pub update : List (Change F) → SystemConfig F → Bool × SystemConfig F
  update [] c = (true, c)
  update (k ∷ ks) c = then_update (update ks) c (set_attribute k c)

  -- `UpdateConfig` of a worker; `answers` is whether its RPC reaches it.
  unfoldable pub update_config : (F → F) → Bool → Simulation F → Simulation F → Simulation F
  update_config narrow answers new old =
      if answers
      then record {
        failure_rate = narrow new.failure_rate;
        inference_latency_ms = narrow new.inference_latency_ms;
      }
      else old

  abbrev pub with_simulation :
      String → Simulation F → (String → Simulation F) → String → Simulation F
  with_simulation id x f = λ j. if str_eq id j then x else f j

  -- `push_config`, to the members in order.
  unfoldable pub push_config :
      (F → F)
      → (String → Bool)
      → Simulation F
      → List String
      → (String → Simulation F)
      → String
      → Simulation F
  unfolding update_config
  push_config narrow answers x [] f = f
  push_config narrow answers x (id ∷ ids) f =
      push_config narrow answers x ids
        (with_simulation id (update_config narrow (answers id) x (f id)) f)

  abbrev pub updated : Server F → Bool × SystemConfig F → Status F → Status F × Server F
  updated s (true, c) done = (done, record s { config = c })
  updated s (false, c) done = (server_error, record s { config = c })

  abbrev pub sized : Server F → Option ℕ → Status F × Server F
  sized s none = (invalid_body, s)
  sized s (some n) = updated s (update (batch_size_to n ∷ []) s.config) (size n)

  unfoldable pub set_batch_size : ℤ → Server F → Status F × Server F
  unfolding update
  set_batch_size n s = sized s (valid_size n)

  unfoldable pub set_scheduler : String → Server F → Status F × Server F
  unfolding update
  set_scheduler name s =
      if among name strategies
      then updated s (update (scheduler_to name ∷ []) s.config) (strategy name)
      else (invalid_body, s)

  abbrev pub simulation : SystemConfig F → Simulation F
  simulation c = record {
    failure_rate = c.failure_rate;
    inference_latency_ms = c.inference_latency_ms;
  }

  -- `_worker_pool.push_config(...)`, and the response.
  abbrev pub pushed : (F → F) → (String → Bool) → Server F → Backend → Status F × Server F
  pushed narrow answers s local = (server_error, s)
  pushed narrow answers s (remote ids) = (
    rate s.config.failure_rate,
    record s { simulations = push_config narrow answers (simulation s.config) ids s.simulations },
  )

  abbrev pub then_push :
      (F → F) → (String → Bool) → Server F → Bool × SystemConfig F → Status F × Server F
  then_push narrow answers s (false, c) = (server_error, record s { config = c })
  then_push narrow answers s (true, c) = pushed narrow answers (record s { config = c }) s.backend

  -- `is_rate` is `0.0 <= x <= 1.0`.
  unfoldable pub set_failure_rate :
      (F → Bool) → (F → F) → (String → Bool) → F → Server F → Status F × Server F
  unfolding update push_config
  set_failure_rate is_rate narrow answers x s =
      if is_rate x
      then then_push narrow answers s (update (failure_rate_to x ∷ []) s.config)
      else (invalid_body, s)
