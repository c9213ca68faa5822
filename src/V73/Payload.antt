-- ===== src/V73/Payload.antt =====
-- system/worker_v73.py: `validate_payload`. `uuid` is `str(uuid.UUID(s))`, or the message of
-- its `ValueError`; the fingerprint, the SHA-256 of the canonical JSON, is a function of the spec.
pub mod Pinned
use latency_aware_inference.Common.{
  ℕ, ◌≡◌, sym, ap, Bool-cases, Option-cases, inl, inr, ◌≤◌, ◌<◌, Bool, true, false, not, ◌&&◌, ◌||◌,
  Option, none, some, String, str_append, str_eq, List, [], ◌∷◌, leb, ltb, arith, ◌⊎◌, str_eq_iff,
}
use latency_aware_inference.Common.Int.{pos}
use latency_aware_inference.Common.Result.{Result, ok, raised, ◌>>=◌, ◌>>◌, unless_raise, or_raise}
use latency_aware_inference.Common.Text.{is_hex_text, among}
use latency_aware_inference.Task.Payload.{Value, Fields, int, str, obj, field, end, get}
use latency_aware_inference.V73.{WorkerError, worker_error}

abbrev pub checkpoint_sha256 : String
checkpoint_sha256 = "ba67d1234be517da77f9a4fdfe26b6c5831bda461ee44d2c4bf400d9367a0d86"

-- 50 MiB
abbrev pub max_input_bytes : ℕ
max_input_bytes = 52428800

abbrev pub invalid : String → WorkerError
invalid message = worker_error "invalid_spec" message

-- `isinstance(v, dict)`
abbrev pub as_object : Value → Option Fields
as_object (obj fields) = some fields
as_object _ = none

abbrev pub has : String → Fields → Bool
has key end = false
has key (field name v rest) = str_eq name key || has key rest

abbrev pub keys_among : Fields → List String → Bool
keys_among end names = true
keys_among (field name v rest) names = among name names && keys_among rest names

abbrev pub has_all : List String → Fields → Bool
has_all [] fields = true
has_all (n ∷ ns) fields = has n fields && has_all ns fields

-- `set(d) == {...}`
abbrev pub has_keys : List String → Fields → Bool
has_keys names fields = keys_among fields names && has_all names fields

-- `d[key]`, where it is a text.
abbrev pub text_of : Option Value → Option String
text_of (some (str s)) = some s
text_of _ = none

abbrev pub text_at : String → Fields → Option String
text_at key fields = text_of (get key fields)

-- `d[key] == s`
abbrev pub is_text : Option String → String → Bool
is_text none s = false
is_text (some t) s = str_eq t s

-- `type(v) is int`, of a number that is not negative.
abbrev pub size_of : Option Value → Option ℕ
size_of (some (int (pos n))) = some n
size_of _ = none

abbrev pub object_at : String → Fields → Option Fields
object_at key fields = elim (get key fields) [ none ↦ none | some v ↦ as_object v ]

pub record Input : Type 0 where
  pub key : String
  pub sha256 : String
  pub size_bytes : ℕ

-- The parts of a spec that the worker uses, and the spec.
pub record Spec : Type 0 where
  pub job_id : String
  pub project_id : String
  pub mode : String
  pub output_prefix : String
  pub input : Input
  pub value : Value

-- The job's place in the bucket.
abbrev pub base_of : String → String → String
base_of project job =
    str_append (str_append (str_append (str_append "projects/" project) "/jobs/") job) "/"

abbrev pub same_uuid : Result String String → String → String → Result WorkerError (Unit {0})
same_uuid (raised m) s message = raised (invalid m)
same_uuid (ok t) s message = unless_raise (str_eq t s) (invalid message)

abbrev pub not_canonical : String
not_canonical = "job and project must be canonical UUIDs"

module _ (uuid : String → Result String String) where
  -- The test by `_uuid` of a text, with the message of its failure.
  abbrev pub check_uuid : String → String → Result WorkerError (Unit {0})
  check_uuid s message = same_uuid (uuid s) s message

  -- The output prefix and the input.
  unfoldable pub validate_input :
      String → Option String → Fields → Result WorkerError (String × Input)
  unfolding is_hex_text
  validate_input base prefix inp = do
    unless_raise (has_keys ("bucket" ∷ "key" ∷ "sha256" ∷ "size_bytes" ∷ []) inp)
        (invalid "invalid input fields")
    key ← or_raise (text_at "key" inp) (invalid "input storage location does not match job")
    unless_raise
        (is_text (text_at "bucket" inp) "synthx-jobs" && str_eq key (str_append base "input.wav"))
        (invalid "input storage location does not match job")
    place ← or_raise prefix (invalid "output prefix does not match job")
    unless_raise (str_eq place (str_append base "results/"))
        (invalid "output prefix does not match job")
    size ←
        or_raise (size_of (get "size_bytes" inp))
          (invalid "input must be between 1 byte and 50 MiB")
    unless_raise (ltb 0 size && leb size max_input_bytes)
        (invalid "input must be between 1 byte and 50 MiB")
    digest ← or_raise (text_at "sha256" inp) (invalid "invalid input SHA256")
    unless_raise (is_hex_text 64 digest) (invalid "invalid input SHA256")
    ok (place, record { key = key; sha256 = digest; size_bytes = size })

  unfoldable pub validate_spec : Fields → Result WorkerError Spec
  validate_spec spec = do
    unless_raise
        (has_keys
          ("job_id" ∷ "project_id" ∷ "user_id" ∷ "model" ∷ "checkpoint_sha256" ∷ "mode" ∷ "input"
            ∷ "output_prefix" ∷ [])
          spec)
        (invalid "unexpected spec fields")
    job ← or_raise (text_at "job_id" spec) (invalid not_canonical)
    check_uuid job not_canonical
    project ← or_raise (text_at "project_id" spec) (invalid not_canonical)
    check_uuid project not_canonical
    user ← or_raise (text_at "user_id" spec) (invalid "user_id is required")
    unless_raise (not (str_eq user "")) (invalid "user_id is required")
    unless_raise
        (is_text (text_at "model" spec) "v7_3_full"
          && is_text (text_at "checkpoint_sha256" spec) checkpoint_sha256)
        (invalid "model or checkpoint does not match pinned release")
    mode ← or_raise (text_at "mode" spec) (invalid "mode must be poly or mono")
    unless_raise (among mode ("poly" ∷ "mono" ∷ [])) (invalid "mode must be poly or mono")
    inp ← or_raise (object_at "input" spec) (invalid "invalid input fields")
    placed ← validate_input (base_of project job) (text_at "output_prefix" spec) inp
    ok (record {
      job_id = job;
      project_id = project;
      mode = mode;
      output_prefix = placed.0;
      input = placed.1;
      value = obj spec;
    })

  -- The detached spec; its fingerprint is a function of it.
  unfoldable pub validate_payload : Value → Result WorkerError Spec
  validate_payload payload = do
    envelope ← or_raise (as_object payload) (invalid "invalid task envelope")
    unless_raise (has_keys ("kind" ∷ "spec" ∷ "attempt_id" ∷ []) envelope)
        (invalid "invalid task envelope")
    attempt ← or_raise (text_at "attempt_id" envelope) (invalid "invalid task kind or attempt UUID")
    unless_raise (is_text (text_at "kind" envelope) "synthx_v73")
        (invalid "invalid task kind or attempt UUID")
    check_uuid attempt "invalid task kind or attempt UUID"
    spec ← or_raise (object_at "spec" envelope) (invalid "unexpected spec fields")
    validate_spec spec
