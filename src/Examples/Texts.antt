-- ===== src/Examples/Texts.antt =====
-- The text endpoint and its worker, on one retrieval.
use latency_aware_inference.Common.{
  ℕ, ◌*◌, ◌≡◌, ◌↔◌, refl, true, false, Option, some, [], ◌∷◌, arith,
}
use latency_aware_inference.Common.Result.{ok}
use latency_aware_inference.Task.{Task}
use latency_aware_inference.Task.Payload.{Value, str, field, end}
use latency_aware_inference.Proxy.Process.{Instant}
use latency_aware_inference.Queue.{TaskQueue, put}
use latency_aware_inference.TextWorker.{TextWorker, inspect}
use latency_aware_inference.TextTasks.{
  text_v1, retrieve, TextTaskRequest, task_data, admit, Ending, text_request, text_task, wait,
}
use latency_aware_inference.TextTasks.Agreement.{
  engine_named, is_configured, task_of, inspect-admit,
}
use latency_aware_inference.TextTasks.Waiting.{IsFinal, text_task-answers}

abbrev encode : Value → Option ℕ
encode v = some 70

abbrev request : TextTaskRequest
request = record {
  model = text_v1;
  operation = retrieve;
  payload = field "pipeline_version" (str "text_v1.2.3") (field "target_engine" (str "vital") end);
}

abbrev worker : TextWorker
worker = record { base_url = "http://text"; refinement_url = "" }

inspect-admit_example : (inspect encode worker (task_data request) ≡ ok (task_of request)) ↔ (
    (admit encode request ≡ ok tt)
    × ((engine_named request ≡ true) × (is_configured worker request ≡ true)))
inspect-admit_example = inspect-admit encode worker request

abbrev clock : ℕ → Instant
clock i = record { monotonic = i * 100000; wall = i }

abbrev waiting : ℕ → Task
waiting i = text_request request "t" (clock 0)

abbrev queue : TaskQueue
queue = record { maxsize = 2; items = []; total_enqueued = 0; total_dequeued = 0 }

abbrev queued : TaskQueue
queued = record { maxsize = 2; items = 4 ∷ []; total_enqueued = 1; total_dequeued = 0 }

request_admitted : admit encode request ≡ ok tt
unfolding admit
request_admitted = refl

waiting_deadline : (i : ℕ) → (waiting i).deadline ≡ some 600000
unfolding text_request
waiting_deadline i = refl

request_queued : put queue 4 ≡ some queued
unfolding put
request_queued = refl

text_task-answers_example :
    (e : Ending) × ((wait clock waiting waiting (λ i. false) 9 0 ≡ some e)
      × ((text_task encode clock waiting waiting (λ i. false) 9 4 request queue
            ≡ (some e.response, queued))
          × IsFinal (λ i. false) e))
text_task-answers_example =
    text_task-answers clock waiting waiting (λ i. false) 600000 encode waiting_deadline 9 6 4
      (omega arith) (omega arith) request request_admitted queue queued request_queued
