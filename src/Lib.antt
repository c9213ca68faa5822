-- ===== src/Lib.antt =====
-- Verification library of the latency-aware inference system.
--
-- The program accepts inference requests over HTTP (system/api_server.py), puts them in a bounded
-- queue (system/queue.py), from which a scheduler (system/scheduler.py) forms batches. A pool
-- (system/grpc_worker_pool.py) routes each batch to the proxy of a remote worker that its
-- discovery (system/zookeeper_registry.py) found, or a local pool (system/worker.py) simulates it.
-- Durable jobs are leased from a PostgreSQL table (system/job_store.py) by a gateway
-- (system/job_gateway.py) that puts them in the same queue; a remote worker answers each batch
-- (system/grpc_worker_server.py), for jobs of the pinned model with the bridge to its daemon
-- (system/worker_v73.py) and for text stages with the adapter of their service
-- (system/worker_text.py). A worker registers its address (system/zookeeper_registry.py). A gate
-- (system/deployment.py) and a deployment tool (deploy/ci/deploy_platform.py) replace the platform
-- while no request is in progress.
--
-- Files:
--   Common        tests, lists and integers that the others share
--   Task          system/task.py: Task with its marks and its retry reservation; Task/Heap has the
--                 task objects that the queue, the proxies and the handlers share by reference
--   Queue         system/queue.py: TaskQueue.put, get, drain, stats
--   Scheduler     system/scheduler.py: FIFOScheduler, BatchingScheduler and LatencyAwareScheduler,
--                 their next_batch; Scheduler/Loop is Scheduler._loop
--   Proxy         system/grpc_worker_pool.py: GrpcWorker; Proxy/Process is _process with
--                 _finish_or_retry, Proxy/Removal is stop
--   Pool          system/grpc_worker_pool.py: GrpcWorkerPool.submit, _submit_compatible,
--                 try_resubmit, _update_workers
--   JobStore      system/job_store.py: JobStore; a statement is one step on the table
--   Gateway       system/job_gateway.py: JobGateway.submit, _enqueue, poll
--   JobEndpoints  system/api_server.py: require_jobs_auth, submit_job, get_job
--   Server        system/grpc_worker_server.py: ProcessBatch, _process_batch, _process_backend
--   V73           system/worker_v73.py: V73/Payload is validate_payload, V73/Run process with
--                 _execute, _call_daemon and _recover_response, V73/Download _download, V73/Upload
--                 _upload_result with the checks of the manifests; V73/Service puts them together
--   Discovery     system/zookeeper_registry.py: WorkerDiscovery._refresh_workers and what it reads;
--                 Discovery/Wakeup is _refresh_loop, with its wakeup and the watches, beside the
--                 changes of the nodes
--   Registry      system/zookeeper_registry.py: WorkerRegistry.register, set_state, deregister and
--                 _registration_loop over _ensure_registered
--   TextWorker    system/worker_text.py: TextWorker.process
--   TextTasks     system/api_server.py: text_task; its agreement with TextWorker
--   Worker        system/worker.py: Worker and WorkerPool
--   Predict       system/api_server.py: predict, readiness, record_metrics
--   Gate          system/deployment.py: DeploymentGate, DeploymentMiddleware
--   Configuration system/config.py: SystemConfig.update; the endpoints that set it, and the push to
--                 the workers (system/grpc_worker_pool.py, system/grpc_worker_server.py)
--   Deploy        deploy/ci/deploy_platform.py: Deployment.run over an interface Runtime;
--                 Deploy/Command is parse_command; Deploy/Drain is Runtime.begin_drain, fence,
--                 acknowledged and end_drain, Deploy/Drain/Wait its wait_idle, over the gates of
--                 system/deployment.py; Deploy/Records is the files that previous,
--                 begin_transaction, record, restore and finish read and write
--   Examples      the theorems at concrete inputs
--
-- Conventions. Clock readings are whole milliseconds and are arguments of the operations that
-- read them, one for each reading where the order of readings matters. A method that holds a lock
-- is one step; where a method works between two locks, the changes of other threads are a function
-- `meanwhile`, with what the theorem asks of it among its hypotheses. The gRPC call is a parameter:
-- any function from the requests to an outcome that may change the state as other threads do.
--
-- In V73 a job is its state file and the number of requests that may have reached the daemon; what
-- the host answers is a record, an argument of each call, with the deaths of the process at any
-- write and during the exchange among the answers. The lock of a job makes its executions one
-- after another; an execution goes on when its caller stops waiting, and a call is modelled to the
-- end of its execution. The storage, the file system, the SHA-256 and the parsing of UUIDs are
-- parameters.
--
-- Loops over lists are structural. The loops of the FIFO and the batching strategy, the polls of
-- `predict` and `text_task` and the wait of a worker run on fuel: one round more than the batch
-- size, or than the rounds until the window, the deadline or the simulated latency is over, is
-- enough, as the theorems on them prove.
--
-- Not modelled: floating-point values (latencies are milliseconds, a payload's numbers integers),
-- JSON texts (payloads are parsed values), logging, thread starts and joins, the generated gRPC
-- code, the experiments, a database that fails. In V73: a job directory that is unsafe or a state
-- file that is broken (the call ends before it changes anything), a deadline that is not finite,
-- and the construction of the storage client; in TextWorker the tests of the service addresses.
-- That a payload is the same value at the endpoint and at the worker, after its passage as JSON,
-- is taken for granted. The start of the application is left out. Floating-point settings are
-- values of a type that is a parameter; a worker reads them as 32-bit floats. In Deploy/Drain a marker that cannot be read is left out.
-- In Deploy/Records the keys of `current.json` but the images are one text, and the text of a new
-- one is a parameter. In Discovery/Wakeup the discovery is not stopped.
-- The row locks of PostgreSQL enter as the argument `locked` of `claim`.
pub mod Common
pub mod Task
pub mod Queue
pub mod Scheduler
pub mod Proxy
pub mod Pool
pub mod JobStore
pub mod Deploy
pub mod Gate
pub mod Worker
pub mod Configuration
pub mod JobEndpoints
pub mod Registry
pub mod TextTasks
pub mod TextWorker
pub mod V73
pub mod Predict
pub mod Examples
pub mod Server
pub mod Gateway
pub mod Discovery
