-- ===== src/Examples/Models.antt =====
-- The V7.3 worker on a job: its payload, its input, its execution and its result.
use latency_aware_inference.Common.{
  ℕ, length, ◌≡◌, ◌≤◌, refl, true, false, none, some, String, str_append, str_eq, List, [], ◌∷◌,
  arith, if◌then◌else◌,
}
use latency_aware_inference.Common.Int.{pos}
use latency_aware_inference.Common.Result.{Result, ok, raised}
use latency_aware_inference.Task.Payload.{Value, Fields, int, str, obj, field, end}
use latency_aware_inference.V73.{worker_error}
use latency_aware_inference.V73.Payload.{
  checkpoint_sha256, Spec, validate_payload, validate_spec, validate_input,
}
use latency_aware_inference.V73.Payload.Pinned.{IsPinned, validate_payload-IsPinned}
use latency_aware_inference.V73.Run.{
  Response, blank, Disk, returned, error, Host, Watch, written, died_after, lost, is_in_time,
  process,
}
use latency_aware_inference.V73.Once.{Attempt, attempts, attempts_once}
use latency_aware_inference.V73.Replay.{recorded, process-recorded}
use latency_aware_inference.V73.Download.{
  bytes, object, download, joined, pieces_of, download-object,
}
use latency_aware_inference.V73.Upload.{
  FileSystem, Published, upload_result, document, check_response, collect, read_documents,
  check_report, verify_manifest, verify_entries, verify_entry, verify_path,
}
use latency_aware_inference.V73.Service.{Call, at_rest, serve, serves, published, IsResult}
use latency_aware_inference.V73.Results.{serve-IsResult}

abbrev uuid : String → Result String String
uuid s = ok s

abbrev digest : String
digest = "00000000000000000000000000000000000000000000000000000000000000aa"

abbrev input : Fields
input = field "bucket" (str "synthx-jobs") (
    field "key" (str "projects/p/jobs/j/input.wav")
      (field "sha256" (str digest) (field "size_bytes" (int (pos 3)) end)))

abbrev spec_fields : Fields
spec_fields = field "job_id" (str "j") (
    field "project_id" (str "p") (
      field "user_id" (str "u") (
        field "model" (str "v7_3_full") (
          field "checkpoint_sha256" (str checkpoint_sha256) (
            field "mode" (str "poly") (
              field "input" (obj input)
                (field "output_prefix" (str "projects/p/jobs/j/results/") end)))))))

abbrev payload : Value
payload = obj (
    field "kind" (str "synthx_v73")
      (field "spec" (obj spec_fields) (field "attempt_id" (str "a") end)))

abbrev spec : Spec
spec = record {
  job_id = "j";
  project_id = "p";
  mode = "poly";
  output_prefix = "projects/p/jobs/j/results/";
  input = record { key = "projects/p/jobs/j/input.wav"; sha256 = digest; size_bytes = 3 };
  value = obj spec_fields;
}

payload_accepted : validate_payload uuid payload ≡ ok spec
unfolding validate_payload validate_spec validate_input
payload_accepted = refl

validate_payload-IsPinned_example : IsPinned uuid spec
validate_payload-IsPinned_example = validate_payload-IsPinned uuid payload spec payload_accepted

abbrev watch : Watch
watch = record { now = 5; is_active = true }

-- The outputs of the job are at j/..., and every file has the same digest.
abbrev report_fields : Fields
report_fields = field "status" (str "completed") (
    field "output" (str "/r/j") (
      field "report" (str "result.json") (
        field "checkpoint_sha256" (str checkpoint_sha256) (
          field "mode" (str "poly") (
            field "artifacts"
              (obj (listed "final.vital" (listed "final.unified.json" (listed "final.wav" end))))
              end)))))
  where
    listed : String → Fields → Fields
    listed name rest =
        field name (obj (field "path" (str name) (field "sha256" (str digest) end))) rest

abbrev files : FileSystem
files = record {
  exists = λ path. true;
  is_file = λ path. true;
  json = λ path. some (obj report_fields);
  digest = λ path. digest;
  size = λ path. 3;
  is_safe = λ path. true;
  is_within = λ path out. true;
  place = λ out path. if str_eq path "result.json" then "/r/j/result.json" else path;
}

abbrev response : Response
response = record { accepted = true; report = some (obj report_fields) }

abbrev result : Published files "/r/j"
result = record {
  files =
      "final.vital" ∷ "final.unified.json" ∷ "final.wav" ∷ "result.json" ∷ "selected.wav"
      ∷ "mono_preview.wav" ∷ "predicted.mid" ∷ "performance.json" ∷ [];
  parameters = report_fields;
}

-- The process dies once the daemon has the request, and the second call finds its report.
abbrev host : Host
host = record {
  first = watch;
  downloaded = watch;
  waited = watch;
  job_free = true;
  model_free = true;
  path_safe = true;
  output_exists = false;
  report_safe = true;
  report_exists = true;
  report = some (obj report_fields);
  first_write = written;
  running_write = written;
  response_write = written;
  result_write = written;
  error_write = written;
  download = ok tt;
  connects = true;
  reply = lost;
  upload = λ r. raised (worker_error "model_error" "no upload");
}

abbrev tries : List Attempt
tries =
    record { host = host; deadline = some 9; fingerprint = "f" }
    ∷ record {
      host = record host { running_write = died_after };
      deadline = none;
      fingerprint = "f";
    }
    ∷ []

attempts_once_example :
    (attempts "/r/j" tries (record { state = blank; requests = 0 })).requests ≤ 1
attempts_once_example = attempts_once "/r/j" tries

abbrev failed : Disk
failed = record {
  state = record blank {
    fingerprint = some "f";
    error = some (worker_error "model_error" "no note");
  };
  requests = 1;
}

failed_recorded :
    recorded failed.state.result failed.state.error
    ≡ some (error (worker_error "model_error" "no note"))
unfolding recorded
failed_recorded = refl

in_time : is_in_time none host.first ≡ true
unfolding is_in_time
in_time = refl

process-recorded_example :
    (process host none "f" "/r/j" failed ≡ (error (worker_error "model_error" "no note"), failed))
    × ((process (record host { job_free = false }) (some 9) "g" "/r/j" failed).1 ≡ failed)
process-recorded_example =
    process-recorded host (record host { job_free = false }) none (some 9) "f" "g" "/r/j" failed
      (error (worker_error "model_error" "no note")) failed_recorded in_time refl refl

abbrev hash : List ℕ → String
hash content = digest

pieces_length : length (joined ((1 ∷ 2 ∷ []) ∷ (3 ∷ []) ∷ [])) ≡ spec.input.size_bytes
unfolding joined
pieces_length = refl

download-object_example :
    download hash spec.input (object none (pieces_of ((1 ∷ 2 ∷ []) ∷ (3 ∷ []) ∷ [])))
    ≡ ok (joined ((1 ∷ 2 ∷ []) ∷ (3 ∷ []) ∷ []))
download-object_example =
    download-object hash spec.input none ((1 ∷ 2 ∷ []) ∷ (3 ∷ []) ∷ []) (refl, (refl, tt))
      pieces_length refl (omega arith) refl

abbrev call : Call
call = record {
  payload = payload;
  deadline = none;
  files = files;
  uploads = λ name. true;
  answer = object none (bytes (1 ∷ 2 ∷ 3 ∷ []) ∷ []);
  host = host;
}

-- The spec's fingerprint and the directory of a job.
abbrev fingerprint : Spec → String
fingerprint s = s.job_id

abbrev results : String → String
results job = str_append "/r/" job

call_returned :
    (serve uuid hash fingerprint results call
      (serves uuid hash fingerprint results (call ∷ []) at_rest)).0
    ≡ returned (document files "/r/j" spec result)
unfolding serve serves process validate_payload validate_spec validate_input download published
    upload_result check_response collect read_documents check_report verify_manifest verify_entries
    verify_entry verify_path document
call_returned = refl

serve-IsResult_example :
    IsResult uuid hash fingerprint results
      (call ∷ call ∷ [])
      "j"
      (document files "/r/j" spec result)
serve-IsResult_example =
    serve-IsResult uuid hash fingerprint results (call ∷ []) call spec
      (document files "/r/j" spec result) payload_accepted call_returned
