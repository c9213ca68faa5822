-- ===== src/V73.antt =====
-- system/worker_v73.py: the worker of the pinned V7.3 model, with its error type.
pub mod Payload
pub mod Run
pub mod Walk
pub mod Once
pub mod Replay
pub mod Download
pub mod Upload
pub mod Service
pub mod Results
use latency_aware_inference.Common.{Bool, false, String}

pub record WorkerError : Type 0 where
  pub code : String
  pub message : String
  pub retryable : Bool

abbrev pub worker_error : String → String → WorkerError
worker_error code message = record { code = code; message = message; retryable = false }
