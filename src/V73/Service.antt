-- ===== src/V73/Service.antt =====
-- system/worker_v73.py: `V73Worker.process` of a payload, from its validation to its end, on the
-- state files of all jobs, with the download and the upload as the execution makes them.
use latency_aware_inference.Common.{
  ℕ, ◌≡◌, Bool, Option, String, str_eq, List, [], ◌∷◌, if◌then◌else◌,
}
use latency_aware_inference.Common.Result.{Result, ok, raised, ◌>>=◌}
use latency_aware_inference.Task.Payload.{Value}
use latency_aware_inference.V73.{WorkerError}
use latency_aware_inference.V73.Payload.{Spec, validate_payload}
use latency_aware_inference.V73.Run.{Response, blank, Disk, Outcome, error, Host, process}
use latency_aware_inference.V73.Download.{Answer, download}
use latency_aware_inference.V73.Upload.{FileSystem, Published, upload_result, document}
use latency_aware_inference.V73.Upload.Verified.{IsVerified}

-- What a call of `process` meets: the payload and its deadline, the files, which uploads succeed,
-- the object in the storage, and the other answers of the host.
pub record Call : Type 0 where
  pub payload : Value
  pub deadline : Option ℕ
  pub files : FileSystem
  pub uploads : String → Bool
  pub answer : Answer
  pub host : Host

-- The call is one of the calls.
pub data IsListed (c : Call) : List Call → Type 0 where
  first : (cs : List Call) → IsListed c (c ∷ cs)
  later : (d : Call) {cs : List Call} → IsListed c cs → IsListed c (d ∷ cs)

-- The state files by job.
abbrev pub Store : Type 0
Store = String → Disk

abbrev pub with_disk : Store → String → Disk → Store
with_disk store job d = λ j. if str_eq job j then d else store j

abbrev pub at_rest : Store
at_rest job = record { state = blank; requests = 0 }

abbrev pub done : {A : Type 0} → Result WorkerError A → Result WorkerError (Unit {0})
done (ok a) = ok tt
done (raised e) = raised e

-- `uuid` and `hash` are as in the validation and the download, `fingerprint` is that of a spec,
-- `results` the output directory of a job.
module _ (uuid : String → Result String String) (hash : List ℕ → String)
    (fingerprint : Spec → String) (results : String → String) where
  unfoldable pub published : Call → Spec → Response → Result WorkerError Value
  published c spec r = upload_result c.files (results spec.job_id) c.uploads spec r >>= λ p.
      ok (document c.files (results spec.job_id) spec p)

  abbrev pub host_of : Call → Spec → Host
  host_of c spec = record c.host {
    download = done (download hash spec.input c.answer);
    upload = published c spec;
  }

  abbrev pub accepted : Call → Result WorkerError Spec → Store → Outcome × Store
  accepted c (raised e) store = (error e, store)
  accepted c (ok spec) store =
      let x =
        process (host_of c spec) c.deadline (fingerprint spec) (results spec.job_id)
          (store spec.job_id) in
      (x.0, with_disk store spec.job_id x.1)

  unfoldable pub serve : Call → Store → Outcome × Store
  serve c store = accepted c (validate_payload uuid c.payload) store

  unfoldable pub serves : List Call → Store → Store
  unfolding serve
  serves [] store = store
  serves (c ∷ rest) store = serves rest (serve c store).1

  -- The document that one of the calls made for its own job, with everything that is checked
  -- before of the files that the call met and of its uploads.
  pub record IsResult (calls : List Call) (job : String) (v : Value) : Type 0 where
    pub call : Call
    pub listed : IsListed call calls
    pub spec : Spec
    pub requested : validate_payload uuid call.payload ≡ ok spec
    pub own : spec.job_id ≡ job
    pub response : Response
    pub result : Published call.files (results spec.job_id)
    pub made : upload_result call.files (results spec.job_id) call.uploads spec response ≡ ok result
    pub same : v ≡ document call.files (results spec.job_id) spec result
    pub verified : IsVerified call.files (results spec.job_id) spec call.uploads result
