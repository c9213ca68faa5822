-- ===== src/TextTasks/Agreement.antt =====
-- The tests of a payload at the endpoint and at the worker.
use latency_aware_inference.Common.{
  ℕ, ◌≡◌, ◌↔◌, refl, Bool, true, not, ◌||◌, Option, str_eq, arith, inl, inr,
}
use latency_aware_inference.Common.Result.{ok, Result-cases, unless_raise, ◌>>◌}
use latency_aware_inference.Task.Payload.{Value, Fields}
use latency_aware_inference.V73.Payload.{invalid}
use latency_aware_inference.TextWorker.{
  TextWorker, TextTask, service_url, names_engine, check_payload, inspect,
}
use latency_aware_inference.TextTasks.{
  TextModel, text_v1, text_refinement, TextOperation, retrieve, rerank, TextTaskRequest, model_name,
  operation_name, is_retrieve, task_data, admit,
}

-- What the worker asks for and the endpoint does not.
abbrev pub engine_named : TextTaskRequest → Bool
engine_named q = not (is_retrieve q.operation) || names_engine q.payload

abbrev pub is_configured : TextWorker → TextTaskRequest → Bool
is_configured w q = not (str_eq (service_url w (model_name q.model)) "")

abbrev pub task_of : TextTaskRequest → TextTask
task_of q = record {
  model = model_name q.model;
  operation = operation_name q.operation;
  payload = q.payload;
}

abbrev make : TextModel → TextOperation → Fields → TextTaskRequest
make m o p = record { model = m; operation = o; payload = p }

module _ (encode : Value → Option ℕ) where
  accepts :
      (m : TextModel) (o : TextOperation) (p : Fields)
      → admit encode (make m o p) ≡ ok tt
      → engine_named (make m o p) ≡ true
      → check_payload encode (model_name m) (operation_name o) p ≡ ok tt
  unfolding admit check_payload
  accepts text_v1 retrieve p a e = ground (arith, a, e)
  accepts text_v1 rerank p a e = ground (arith, a, e)
  accepts text_refinement retrieve p a e = ground (arith, a, e)
  accepts text_refinement rerank p a e = ground (arith, a, e)

  rejects :
      (m : TextModel) (o : TextOperation) (p : Fields)
      → check_payload encode (model_name m) (operation_name o) p ≡ ok tt
      → (admit encode (make m o p) ≡ ok tt) × (engine_named (make m o p) ≡ true)
  unfolding admit check_payload
  rejects text_v1 retrieve p a = ground (arith, a)
  rejects text_v1 rerank p a = ground (arith, a)
  rejects text_refinement retrieve p a = ground (arith, a)
  rejects text_refinement rerank p a = ground (arith, a)

  inspect-data :
      (w : TextWorker) (m : TextModel) (o : TextOperation) (p : Fields)
      → inspect encode w (task_data (make m o p)) ≡ (
          unless_raise
            (is_configured w (make m o p))
            (invalid "MFCC refinement service is not configured")
          >> (check_payload encode (model_name m) (operation_name o) p
              >> ok (task_of (make m o p))))
  unfolding inspect task_data
  inspect-data w text_v1 retrieve p = refl
  inspect-data w text_v1 rerank p = refl
  inspect-data w text_refinement retrieve p = refl
  inspect-data w text_refinement rerank p = refl

  -- The worker accepts the task that the endpoint makes of a request, unchanged, exactly when the
  -- endpoint admits the request, a retrieval names its engine and the service of its model is
  -- configured.
  pub inspect-admit :
      (w : TextWorker) (q : TextTaskRequest)
      → (inspect encode w (task_data q) ≡ ok (task_of q))
        ↔ ((admit encode q ≡ ok tt) × ((engine_named q ≡ true) × (is_configured w q ≡ true)))
  inspect-admit w q = (
    λ h.
        elim (Result-cases
          (check_payload encode (model_name q.model) (operation_name q.operation) q.payload)) [
            | inl (u, k) ↦
                let r = rejects q.model q.operation q.payload k in
                (r.0, (r.1, ground (arith, h, inspect-data w q.model q.operation q.payload)))
            | inr (x, k) ↦
                absurd (ground (arith, k, h, inspect-data w q.model q.operation q.payload))
          ],
    λ (a, (e, c)).
        rw
          (
            inspect-data w q.model q.operation q.payload,
            c,
            accepts q.model q.operation q.payload a e,
          )
          refl,
  )
