-- ===== src/TextWorker.antt =====
-- system/worker_text.py: `TextWorker.process`. The HTTP service is a function from the address, the
-- payload and the timeout; `encode` is the length of a value as JSON, if it has one.

use latency_aware_inference.Common.{
  ℕ, ◌-◌, Bool, false, not, ◌&&◌, ◌||◌, Option, none, some, String, str_append, str_eq, [], ◌∷◌,
  leb, ◌==◌, if◌then◌else◌,
}
use latency_aware_inference.Common.Result.{Result, ok, raised, ◌>>=◌, ◌>>◌, unless_raise, or_raise}
use latency_aware_inference.Common.Text.{among}
use latency_aware_inference.Task.Payload.{Value, Fields, str, obj, field, end}
use latency_aware_inference.V73.{WorkerError, worker_error}
use latency_aware_inference.V73.Payload.{invalid, as_object, has_keys, is_text, text_at, object_at}
use latency_aware_inference.V73.Run.{Watch, is_late}

abbrev pub text_model : String
text_model = "text_v1.2.3"

abbrev pub refinement : String
refinement = "text_v1.2_refinement"

-- `MODEL_KINDS[model]`, of a model that is one of the two.
abbrev pub kind_of : String → String
kind_of model = if str_eq model text_model then "synthx_text_v123" else "synthx_text_refinement"

-- 8 MiB
abbrev pub max_result : ℕ
max_result = 8388608

-- The service's addresses; that of the refinement service is empty where it is not configured.
pub record TextWorker : Type 0 where
  pub base_url : String
  pub refinement_url : String

abbrev pub service_url : TextWorker → String → String
service_url w model = if str_eq model refinement then w.refinement_url else w.base_url

-- `ROUTES[operation]`
abbrev pub route : String → String
route operation = if str_eq operation "retrieve" then "/text-v1/retrieve" else "/text-v1/rerank"

-- `isinstance(payload.get(key), str) and payload[key]`
abbrev pub is_named : Option String → Bool
is_named none = false
is_named (some s) = not (str_eq s "")

abbrev pub has_anchor : Fields → Bool
has_anchor payload =
    is_named (text_at "anchor_candidate_id" payload)
    && is_named (text_at "anchor_native_sha256" payload)
    && is_named (text_at "anchor_audio_sha256" payload)

abbrev pub is_similar : Fields → Bool
is_similar payload = is_text (text_at "operation" payload) "retrieve_similar"

abbrev pub names_engine : Fields → Bool
names_engine payload =
    is_text (text_at "target_engine" payload) "vital"
    || is_text (text_at "target_engine" payload) "serum2"

pub record TextTask : Type 0 where
  pub model : String
  pub operation : String
  pub payload : Fields

-- `_check`
unfoldable pub check : Option ℕ → Watch → Result WorkerError (Unit {0})
check deadline w =
    if is_late deadline w.now
    then raised (worker_error "deadline_exceeded" "text task deadline exceeded")
    else if not w.is_active
    then raised (worker_error "cancelled" "text task caller disconnected")
    else ok tt

-- What the service answers: a status that is an error, no answer in time, another failure of the
-- request, or content of some length, parsed if it is finite JSON.
pub data Answer : Type 0 where
  status : ℕ → Answer
  timed_out unreachable : Answer
  content : ℕ → Option Value → Answer

pub record Environment : Type 0 where
  pub first : Watch
  pub second : Watch
  pub third : Watch
  pub sent : ℕ
  pub is_free : Bool

-- The timeout of the request in milliseconds: `min(budget, max(.001, deadline - now))`.
abbrev pub at_most : ℕ → ℕ → ℕ
at_most limit n = if leb limit n then limit else n

abbrev pub at_least : ℕ → ℕ → ℕ
at_least limit n = if leb limit n then n else limit

abbrev pub budget_of : String → ℕ
budget_of operation = if str_eq operation "retrieve" then 600000 else 180000

unfoldable pub timeout_of : String → Option ℕ → ℕ → ℕ
timeout_of operation none now = budget_of operation
timeout_of operation (some d) now = at_most (budget_of operation) (at_least 1 (d - now))

unfoldable pub code_of : ℕ → String
code_of n =
    if (n == 400 || n == 404) || n == 422
    then "invalid_spec"
    else if n == 429 || n == 503
    then "overloaded"
    else "worker_error"

abbrev pub same_text : Option String → Option String → Bool
same_text none t = false
same_text (some s) t = is_text t s

-- The response of the service, checked.
unfoldable pub receive : TextTask → ℕ → Option Value → Result WorkerError Value
receive t length parsed = do
  unless_raise (leb length max_result) (worker_error "invalid_result" "text result exceeds 8 MiB")
  value ← or_raise parsed (worker_error "invalid_result" "text result must be finite JSON")
  result ←
      or_raise (as_object value) (worker_error "invalid_result" "text result must be an object")
  unless_raise
      (not (str_eq t.operation "retrieve")
        || same_text (text_at "model" result) (text_at "pipeline_version" t.payload))
      (worker_error "invalid_result" "Vast text service returned a different model version")
  unless_raise (not (str_eq t.model text_model) || is_text (text_at "model" result) text_model)
      (worker_error "invalid_result" "Vast text service returned a different model version")
  ok (
      obj (
        field "model" (str t.model)
          (field "operation" (str t.operation) (field "result" value end))))

module _ (encode : Value → Option ℕ) where
  -- The tests of `process` on the payload.
  unfoldable pub check_payload : String → String → Fields → Result WorkerError (Unit {0})
  check_payload model operation payload =
      let is_retrieve = str_eq operation "retrieve" in
      do
        unless_raise (not is_retrieve || is_text (text_at "pipeline_version" payload) model)
            (invalid "retrieval pipeline does not match text worker")
        unless_raise (not is_retrieve || names_engine payload)
            (invalid "text_v1.2.3 requires target_engine")
        unless_raise
            (not (is_retrieve && str_eq model refinement)
              || (is_similar payload && has_anchor payload))
            (invalid "MFCC refinement requires a verified bank anchor")
        unless_raise (not (is_retrieve && str_eq model text_model && is_similar payload))
            (invalid "anchor retrieval must use the separate refinement pipeline")
        length ← or_raise (encode (obj payload)) (invalid "text payload must be finite JSON")
        unless_raise (leb length 262144) (invalid "text payload exceeds 256 KiB")

  unfoldable pub inspect : TextWorker → Value → Result WorkerError TextTask
  inspect w v = do
    data' ← or_raise (as_object v) (invalid "text task must pin a supported text model")
    unless_raise (has_keys ("kind" ∷ "model" ∷ "operation" ∷ "payload" ∷ []) data')
        (invalid "text task must pin a supported text model")
    model ← or_raise (text_at "model" data') (invalid "text task must pin a supported text model")
    unless_raise (among model (text_model ∷ refinement ∷ []))
        (invalid "text task must pin a supported text model")
    unless_raise (is_text (text_at "kind" data') (kind_of model))
        (invalid "text task capability does not match model")
    unless_raise (not (str_eq (service_url w model) ""))
        (invalid "MFCC refinement service is not configured")
    operation ←
        or_raise (text_at "operation" data')
          (invalid "only text retrieve/rerank operations are allowed")
    unless_raise (among operation ("retrieve" ∷ "rerank" ∷ []))
        (invalid "only text retrieve/rerank operations are allowed")
    payload ←
        or_raise (object_at "payload" data')
          (invalid "only text retrieve/rerank operations are allowed")
    check_payload model operation payload
    ok (record { model = model; operation = operation; payload = payload })

-- `render` writes a status code.
module _ (encode : Value → Option ℕ) (render : ℕ → String) where
  -- What follows the request.
  abbrev pub answered : Option ℕ → Environment → TextTask → Answer → Result WorkerError Value
  answered deadline e t (status n) =
      raised (worker_error (code_of n) (str_append "Vast text service returned HTTP " (render n)))
  answered deadline e t timed_out =
      raised (worker_error "deadline_exceeded" "Vast text service request failed")
  answered deadline e t unreachable =
      raised (worker_error "transport_error" "Vast text service request failed")
  answered deadline e t (content length parsed) = check deadline e.third >> receive t length parsed

  unfoldable pub process :
      (String → Fields → ℕ → Answer)
      → TextWorker
      → Option ℕ
      → Environment
      → Value
      → Result WorkerError Value
  unfolding check inspect timeout_of receive code_of
  process service w deadline e v = do
    check deadline e.first
    t ← inspect encode w v
    unless_raise e.is_free (worker_error "busy" "text worker is busy")
    check deadline e.second
    answered deadline e t (
        service (str_append (service_url w t.model) (route t.operation)) t.payload
          (timeout_of t.operation deadline e.sent))
