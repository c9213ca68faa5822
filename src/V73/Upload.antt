-- ===== src/V73/Upload.antt =====
-- system/worker_v73.py: `_upload_result`, `_verify_manifest`, `_verify_path`. The file system is a
-- record of its answers, with paths as texts; `uploads` says which uploads succeed.
pub mod Verified
use latency_aware_inference.Common.{
  Bool, true, false, not, ◌&&◌, ◌||◌, ℕ, Option, none, some, String, str_append, str_eq, List, [],
  ◌∷◌, ◌++◌, if◌then◌else◌,
}
use latency_aware_inference.Common.Int.{pos}
use latency_aware_inference.Common.Result.{Result, ok, raised, ◌>>=◌, ◌>>◌, unless_raise, or_raise}
use latency_aware_inference.Common.Text.{among}
use latency_aware_inference.Task.Payload.{
  Value, Fields, null, bool, int, str, arr, obj, field, end, get,
}
use latency_aware_inference.V73.{WorkerError, worker_error}
use latency_aware_inference.V73.Payload.{
  Spec, has, has_all, is_text, text_of, text_at, as_object, object_at, checkpoint_sha256,
}
use latency_aware_inference.V73.Run.{Response, or_empty, unsafe}

pub record FileSystem : Type 0 where
  pub exists : String → Bool
  pub is_file : String → Bool
  pub json : String → Option Value
  pub digest : String → String
  pub size : String → ℕ
  -- `path.resolve() == path` and `path.is_relative_to(self.root)`
  pub is_safe : String → Bool
  -- `path.is_relative_to(out)`
  pub is_within : String → String → Bool
  -- `Path(reference)` if it is absolute, else `out / reference`
  pub place : String → String → String

abbrev pub required : List String
required = "final.vital" ∷ "final.unified.json" ∷ "final.wav" ∷ "result.json" ∷ []

-- `REQUIRED[:-1]`
abbrev pub listed : List String
listed = "final.vital" ∷ "final.unified.json" ∷ "final.wav" ∷ []

abbrev pub optional : List String
optional = "selected.wav" ∷ "mono_preview.wav" ∷ "predicted.mid" ∷ "performance.json" ∷ []

abbrev pub bad_artifacts : String → WorkerError
bad_artifacts message = worker_error "invalid_artifacts" message

module _ (f : FileSystem) (out : String) where
  abbrev pub kept : String → Result WorkerError (List String) → Result WorkerError (List String)
  kept name (ok names) = ok (name ∷ names)
  kept name (raised e) = raised e

  -- The loop that fills `files`, on the names that are left.
  unfoldable pub collect : List String → Result WorkerError (List String)
  collect [] = ok []
  collect (name ∷ rest) =
      let files = collect rest in
      if not (f.is_safe (f.place out name))
      then raised unsafe
      else if not (f.exists (f.place out name)) && among name optional
      then files
      else if not (f.is_file (f.place out name))
      then raised (bad_artifacts (str_append "required artifact is missing: " name))
      else kept name files

  unfoldable pub verify_path : Option Value → Result WorkerError String
  verify_path reference = do
    path ← or_raise (text_of reference) (bad_artifacts "artifact path must be a string")
    unless_raise (f.is_safe (f.place out path)) unsafe
    unless_raise (f.is_within out (f.place out path)) (bad_artifacts "artifact escapes job output")
    ok (f.place out path)

  -- `reference if isinstance(reference, dict) else {}`
  abbrev pub descriptor : Value → Fields
  descriptor (obj fields) = fields
  descriptor _ = end

  -- `descriptor.get('path') if descriptor else reference`
  abbrev pub path_of : Value → Option Value
  path_of (obj (field name v rest)) = get "path" (field name v rest)
  path_of v = some v

  -- `descriptor.get('sha256') != metadata[name]['sha256']`, negated.
  abbrev pub same_digest : Fields → String → Bool
  same_digest d name = is_text (text_at "sha256" d) (f.digest (f.place out name))

  -- One entry of a manifest; `files` are the keys of `metadata`.
  unfoldable pub verify_entry : List String → Bool → String → Value → Result WorkerError (Unit {0})
  verify_entry files is_required name reference = do
    candidate ← verify_path (path_of reference)
    unless_raise (not (among name files) || str_eq candidate (f.place out name))
        (bad_artifacts "artifact path does not match its fixed filename")
    unless_raise (not (among name files && is_required) || same_digest (descriptor reference) name)
        (bad_artifacts "model artifact SHA256 does not match file")
    unless_raise
        (not (among name files && has "sha256" (descriptor reference))
          || same_digest (descriptor reference) name)
        (bad_artifacts "model artifact SHA256 does not match file")

  unfoldable pub verify_entries : List String → Bool → Fields → Result WorkerError (Unit {0})
  verify_entries files is_required end = ok tt
  verify_entries files is_required (field name reference rest) =
      let others = verify_entries files is_required rest in
      verify_entry files is_required name reference >>= λ _. others

  unfoldable pub verify_manifest : List String → Bool → Value → Result WorkerError (Unit {0})
  verify_manifest files is_required manifest = do
    fields ← or_raise (as_object manifest) (bad_artifacts "invalid model artifact manifest")
    unless_raise (not is_required || has_all listed fields)
        (bad_artifacts "required artifact is missing from model report")
    verify_entries files is_required fields

  abbrev pub no_document : WorkerError
  no_document = bad_artifacts "invalid Unified parameter document"

  -- What the daemon reports, checked.
  unfoldable pub check_response : Response → Result WorkerError Fields
  check_response r = do
    unless_raise r.accepted
        (worker_error "model_error" "model daemon reported an execution failure")
    report ← or_raise r.report (worker_error "model_error" "invalid model result")
    fields ← or_raise (as_object report) (worker_error "model_error" "invalid model result")
    unless_raise (not (is_text (text_at "status" fields) "no_usable_note"))
        (worker_error "no_usable_note" "model found no usable note")
    unless_raise (is_text (text_at "status" fields) "completed")
        (worker_error "model_error" "model did not complete inference")
    unless_raise (is_text (text_at "output" fields) out)
        (bad_artifacts "model output directory does not match job")
    unless_raise (f.is_safe out) unsafe
    ok fields

  -- The parameter document and the report in the output directory.
  unfoldable pub read_documents : Result WorkerError (Fields × Fields)
  read_documents = do
    unified ← or_raise (f.json (f.place out "final.unified.json")) no_document
    parameters ← or_raise (as_object unified) no_document
    result ← or_raise (f.json (f.place out "result.json")) no_document
    detailed ← or_raise (as_object result) no_document
    unless_raise (is_text (text_at "status" detailed) "completed") no_document
    ok (parameters, detailed)

  abbrev pub all_uploaded : (String → Bool) → List String → Bool
  all_uploaded uploads [] = true
  all_uploaded uploads (name ∷ rest) = uploads name && all_uploaded uploads rest

  -- What is published: the files, and the parameter document.
  pub record Published : Type 0 where
    pub files : List String
    pub parameters : Fields

  unfoldable pub check_report : Spec → List String → Fields → Fields → Result WorkerError (Unit {0})
  check_report spec files report detailed = do
    unless_raise (is_text (text_at "checkpoint_sha256" detailed) checkpoint_sha256)
        (worker_error "checkpoint_mismatch" "model report checkpoint differs from pinned release")
    unless_raise (is_text (text_at "mode" detailed) spec.mode)
        (bad_artifacts "model report mode differs from job spec")
    verify_manifest files false (or_empty (get "artifacts" report))
    verify_manifest files true (or_empty (get "artifacts" detailed))
    path ← verify_path (get "report" report)
    unless_raise (str_eq path (f.place out "result.json"))
        (bad_artifacts "model report must be this job result.json")

  unfoldable pub upload_result : (String → Bool) → Spec → Response → Result WorkerError Published
  upload_result uploads spec r = do
    report ← check_response r
    files ← collect (required ++ optional)
    documents ← read_documents
    check_report spec files report documents.1
    unless_raise (all_uploaded uploads files)
        (record { code = "storage_error"; message = "artifact upload failed"; retryable = true })
    ok (record { files = files; parameters = documents.0 })

  -- `metadata`, of the files that were uploaded.
  abbrev pub artifacts_of : Spec → List String → Fields
  artifacts_of spec [] = end
  artifacts_of spec (name ∷ rest) =
      field name
        (obj (
          field "bucket" (str "synthx-jobs") (
            field "key" (str (str_append spec.output_prefix name)) (
              field "sha256" (str (f.digest (f.place out name)))
                (field "size_bytes" (int (pos (f.size (f.place out name)))) end)))))
        (artifacts_of spec rest)

  -- The result of the job.
  unfoldable pub document : Spec → Published → Value
  document spec p = obj (
      field "job_id" (str spec.job_id) (
        field "model" (str "v7_3_full") (
          field "checkpoint_sha256" (str checkpoint_sha256) (
            field "artifacts" (obj (artifacts_of spec p.files))
              (field "parameter_json" (obj p.parameters) end)))))
