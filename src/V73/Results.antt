-- ===== src/V73/Results.antt =====
-- The results that the worker returns.
use latency_aware_inference.Common.{
  ℕ, ◌≡◌, refl, subst, String, str_eq, str_eq_iff, List, [], ◌∷◌, arith, if_cases, inl, inr,
}
use latency_aware_inference.Common.Result.{Result, ok, raised, Result-cases}
use latency_aware_inference.Task.Payload.{Value}
use latency_aware_inference.V73.{WorkerError}
use latency_aware_inference.V73.Payload.{Spec, validate_payload}
use latency_aware_inference.V73.Run.{Response, Disk, returned}
use latency_aware_inference.V73.Walk.{IsSound, Gives, process-IsGood, blank-IsSound}
use latency_aware_inference.V73.Upload.{upload_result}
use latency_aware_inference.V73.Upload.Verified.{upload_result-IsVerified}
use latency_aware_inference.V73.Service.{
  Call, IsListed, first, later, Store, with_disk, at_rest, published, host_of, accepted, serve,
  serves, IsResult,
}

module _ (uuid : String → Result String String) (hash : List ℕ → String)
    (fingerprint : Spec → String) (results : String → String) (history : List Call) where
  abbrev Own : String → Value → Type 0
  Own job v = IsResult uuid hash fingerprint results history job v

  published-IsResult :
      (c : Call) (spec : Spec) (r : Response) (v : Value)
      → IsListed c history
      → validate_payload uuid c.payload ≡ ok spec
      → published uuid hash fingerprint results c spec r ≡ ok v
      → Own spec.job_id v
  unfolding published
  published-IsResult c spec r v l q h =
      elim (Result-cases (upload_result c.files (results spec.job_id) c.uploads spec r)) [
        | inl (p, e) ↦ record {
          call = c;
          listed = l;
          spec = spec;
          requested = q;
          own = refl;
          response = r;
          result = p;
          made = e;
          same = ground (arith, e, h);
          verified = upload_result-IsVerified c.files (results spec.job_id) c.uploads spec r p e;
        }
        | inr (x, e) ↦ absurd (ground (arith, e, h))
      ]

  -- The state files of all jobs.
  abbrev AllSound : Store → Type 0
  AllSound store = (job : String) → IsSound (Own job) (store job)

  abbrev job_of : Result WorkerError Spec → String
  job_of (ok spec) = spec.job_id
  job_of (raised e) = ""

  with_disk-AllSound :
      (store : Store) (job : String) (d : Disk)
      → AllSound store
      → IsSound (Own job) d
      → AllSound (with_disk store job d)
  with_disk-AllSound store job d s k j =
      if_cases (IsSound (Own j)) (str_eq job j) _ _
        (λ e. subst (λ i. IsSound (Own i) d) ((str_eq_iff job j).0 e) k) (λ _. s j)

  accepted-AllSound :
      (c : Call) (r : Result WorkerError Spec) (store : Store)
      → IsListed c history
      → validate_payload uuid c.payload ≡ r
      → AllSound store
      → AllSound (accepted uuid hash fingerprint results c r store).1
        × Gives (Own (job_of r)) (accepted uuid hash fingerprint results c r store).0
  unfolding Gives
  accepted-AllSound c (raised e) store l q s = (s, tt)
  accepted-AllSound c (ok spec) store l q s =
      let good =
        process-IsGood (Own spec.job_id) (host_of uuid hash fingerprint results c spec) c.deadline
          (fingerprint spec) (results spec.job_id) (store spec.job_id)
          (λ r v e. published-IsResult c spec r v l q e) (s spec.job_id) in
      (with_disk-AllSound store spec.job_id _ s good.0, good.1)

  serves-AllSound :
      (calls : List Call) (store : Store)
      → ((c : Call) → IsListed c calls → IsListed c history)
      → AllSound store
      → AllSound (serves uuid hash fingerprint results calls store)
  unfolding serves serve
  serves-AllSound [] store k s = s
  serves-AllSound (c ∷ rest) store k s =
      serves-AllSound rest _ (λ d l. k d (later c l))
        (accepted-AllSound c (validate_payload uuid c.payload) store (k c (first rest)) refl s).0

module _ (uuid : String → Result String String) (hash : List ℕ → String)
    (fingerprint : Spec → String) (results : String → String) where
  -- Whatever calls the worker has served, for whatever jobs and with whatever failures and deaths
  -- of its process: the value that a further call returns, anew or from the state file, is the
  -- document that this call or one of those made for the very job of its payload. The files that
  -- call met hold a completed report of the pinned release and of the mode of its spec, they have
  -- the required files with the digests that the report lists, and its uploads succeeded.
  pub serve-IsResult :
      (calls : List Call) (c : Call) (spec : Spec) (v : Value)
      → validate_payload uuid c.payload ≡ ok spec
      → (serve uuid hash fingerprint results c
          (serves uuid hash fingerprint results calls at_rest)).0
        ≡ returned v
      → IsResult uuid hash fingerprint results (c ∷ calls) spec.job_id v
  unfolding serve Gives
  serve-IsResult calls c spec v h e =
      let history = c ∷ calls in
      let store = serves uuid hash fingerprint results calls at_rest in
      let sound : AllSound uuid hash fingerprint results history store =
        serves-AllSound uuid hash fingerprint results history calls at_rest (λ d l. later c l)
          (λ job. blank-IsSound (Own uuid hash fingerprint results history job)) in
      let given =
        (accepted-AllSound uuid hash fingerprint results history c (validate_payload uuid c.payload)
          store (first calls) refl sound).1 in
      let given' =
        subst
          (λ r.
            Gives
              (Own uuid hash fingerprint results history
                (job_of uuid hash fingerprint results history r))
              (serve uuid hash fingerprint results c store).0)
          h given in
      subst (Gives (Own uuid hash fingerprint results history spec.job_id)) e given'
