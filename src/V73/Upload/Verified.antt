-- ===== src/V73/Upload/Verified.antt =====
-- What holds of a result that is published.
use latency_aware_inference.Common.{
  ◌≡◌, refl, sym, subst, Bool, true, false, Option, some, String, str_eq, str_eq_iff, str_eq_refl,
  List, [], ◌∷◌, ◌++◌, All, Bool-cases, inl, inr, if_cases, arith,
}
use latency_aware_inference.Common.Result.{Result, ok, raised, Result-cases}
use latency_aware_inference.Common.Text.{among}
use latency_aware_inference.Task.Payload.{
  Value, Fields, null, bool, int, str, arr, obj, field, end, get,
}
use latency_aware_inference.V73.{WorkerError}
use latency_aware_inference.V73.Payload.{Spec, has, has_all, is_text, text_at, checkpoint_sha256}
use latency_aware_inference.V73.Run.{Response, or_empty}
use latency_aware_inference.V73.Upload.{
  FileSystem, required, listed, optional, kept, path_of, collect, verify_path, descriptor,
  same_digest, verify_entry, verify_entries, verify_manifest, check_response, read_documents,
  all_uploaded, Published, check_report, upload_result,
}

has-get : (name : String) (m : Fields) → has name m ≡ true → (v : Value) × (get name m ≡ some v)
has-get name end h = absurd (cc h)
has-get name (field key v rest) h =
    if_cases (λ (o : Option Value). (w : Value) × (o ≡ some w)) (str_eq key name) _ _
      (λ _. (v, refl)) (λ e. has-get name rest (ground (arith, e, h)))

module _ (f : FileSystem) (out : String) where
  kept_names :
      (name : String) (r : Result WorkerError (List String)) (names : List String)
      → kept f out name r ≡ ok names
      → (rest : List String) × ((r ≡ ok rest) × (names ≡ name ∷ rest))
  kept_names name (ok rest) names h = (rest, (refl, ground (arith, h)))
  kept_names name (raised e) names h = absurd (cc h)

  grown :
      (rs files : List String)
      → ((n : String) → among n rs ≡ true → among n files ≡ true)
      → (names : List String)
      → All (λ name. among name optional ≡ false → among name rs ≡ true) names
      → All (λ name. among name optional ≡ false → among name files ≡ true) names
  grown rs files k [] a = tt
  grown rs files k (n ∷ ns) a = (λ o. k n (a.0 o), grown rs files k ns a.1)

  -- A file that is not optional is among those that are collected.
  collect-among :
      (names files : List String)
      → collect f out names ≡ ok files
      → All (λ name. among name optional ≡ false → among name files ≡ true) names
  unfolding collect
  collect-among [] files h = tt
  collect-among (name ∷ rest) files h = elim (Result-cases (collect f out rest)) [
    | inl (rs, e) ↦ (
      ground (arith, e, h, str_eq_refl name),
      grown rs files (λ n a. ground (arith, e, h, a)) rest (collect-among rest rs e),
    )
    | inr (x, e) ↦ absurd (ground (arith, e, h))
  ]

  -- An entry of the manifest that is required has the digest of the file of its name.
  entry_digest :
      (files : List String) (name : String) (reference : Value)
      → verify_entry f out files true name reference ≡ ok tt
      → among name files ≡ true
      → same_digest f out (descriptor f out reference) name ≡ true
  unfolding verify_entry
  entry_digest files name reference h a =
      elim (Result-cases (verify_path f out (path_of f out reference))) [
        | inl (path, e) ↦ ground (arith, e, a, h)
        | inr (x, e) ↦ absurd (ground (arith, e, h))
      ]

  entries_digest :
      (files : List String) (m : Fields) (name : String) (reference : Value)
      → verify_entries f out files true m ≡ ok tt
      → get name m ≡ some reference
      → among name files ≡ true
      → same_digest f out (descriptor f out reference) name ≡ true
  unfolding verify_entries
  entries_digest files end name reference h g a = absurd (cc g)
  entries_digest files (field key v rest) name reference h g a =
      elim (Result-cases (verify_entry f out files true key v)) [
        | inl (u, e) ↦ elim (Bool-cases (str_eq key name)) [
          | inl k ↦
              let same : v ≡ reference = ground (arith, k, g) in
              subst (λ x. same_digest f out (descriptor f out x) name ≡ true) same
                (entry_digest files name v
                  (subst (λ n. verify_entry f out files true n v ≡ ok tt)
                    ((str_eq_iff key name).0 k) (ground (arith, e)))
                  a)
          | inr k ↦
              entries_digest files rest name reference (ground (arith, e, h)) (ground (arith, k, g))
                a
        ]
        | inr (x, e) ↦ absurd (ground (arith, e, h))
      ]

  -- Each required file that the model reports is listed with the digest of the file published.
  unfoldable pub IsListed : Value → Type 0
  IsListed manifest =
      (m : Fields) × ((manifest ≡ obj m)
        × All
            (λ name.
              (reference : Value) × ((get name m ≡ some reference)
                × (same_digest f out (descriptor f out reference) name ≡ true)))
            listed)

  manifest_listed :
      (files : List String) (manifest : Value)
      → verify_manifest f out files true manifest ≡ ok tt
      → All (λ name. among name files ≡ true) listed
      → IsListed manifest
  unfolding verify_manifest IsListed
  manifest_listed files (obj m) h a =
      let named : has_all listed m ≡ true = ground (arith, h) in
      let entries : verify_entries f out files true m ≡ ok tt = ground (arith, h) in
      (
        m,
        (
          refl,
          (
            listing "final.vital" a.0 (ground (arith, named)) entries,
            (
              listing "final.unified.json" a.1.0 (ground (arith, named)) entries,
              (listing "final.wav" a.1.1.0 (ground (arith, named)) entries, tt),
            ),
          ),
        ),
      )
    where
      listing :
          (name : String)
          → among name files ≡ true
          → has name m ≡ true
          → verify_entries f out files true m ≡ ok tt
          → (reference : Value) × ((get name m ≡ some reference)
              × (same_digest f out (descriptor f out reference) name ≡ true))
      listing name b n e =
          let (reference, g) = has-get name m n in
          (reference, (g, entries_digest files m name reference e g b))
  manifest_listed files null h a = absurd (cc h)
  manifest_listed files (bool b) h a = absurd (cc h)
  manifest_listed files (int n) h a = absurd (cc h)
  manifest_listed files (str s) h a = absurd (cc h)
  manifest_listed files (arr xs) h a = absurd (cc h)

  -- What a published result is known to be: its report is of the pinned release and of the job's
  -- mode, its required files are there, with the digests that the report lists, and are uploaded.
  pub record IsVerified (spec : Spec) (uploads : String → Bool) (p : Published f out) : Type 0 where
    pub detailed : Fields
    pub read : f.json (f.place out "result.json") ≡ some (obj detailed)
    pub completed : is_text (text_at "status" detailed) "completed" ≡ true
    pub release : is_text (text_at "checkpoint_sha256" detailed) checkpoint_sha256 ≡ true
    pub mode : is_text (text_at "mode" detailed) spec.mode ≡ true
    pub complete : All (λ name. among name p.files ≡ true) required
    pub listing : IsListed (or_empty (get "artifacts" detailed))
    pub uploaded : All (λ name. uploads name ≡ true) p.files

  all_uploaded-All :
      (uploads : String → Bool) (names : List String)
      → all_uploaded f out uploads names ≡ true
      → All (λ name. uploads name ≡ true) names
  all_uploaded-All uploads [] e = tt
  all_uploaded-All uploads (name ∷ names) e =
      (ground (arith, e), all_uploaded-All uploads names (ground (arith, e)))

  required-among :
      (files : List String)
      → collect f out (required ++ optional) ≡ ok files
      → All (λ name. among name files ≡ true) required
  required-among files e =
      let a = collect-among (required ++ optional) files e in
      (a.0 refl, (a.1.0 refl, (a.1.1.0 refl, (a.1.1.1.0 refl, tt))))

  documents_read :
      (d : Fields × Fields)
      → read_documents f out ≡ ok d
      → (f.json (f.place out "result.json") ≡ some (obj d.1))
        × (is_text (text_at "status" d.1) "completed" ≡ true)
  unfolding read_documents
  documents_read d h = ground (arith, h)

  report_checked :
      (spec : Spec) (files : List String) (report detailed : Fields)
      → check_report f out spec files report detailed ≡ ok tt
      → (is_text (text_at "checkpoint_sha256" detailed) checkpoint_sha256 ≡ true)
        × ((is_text (text_at "mode" detailed) spec.mode ≡ true)
            × (verify_manifest f out files true (or_empty (get "artifacts" detailed)) ≡ ok tt))
  unfolding check_report
  report_checked spec files report detailed h = ground (arith, h)

  -- A result is published only where the model's report is that of the pinned release, for the
  -- mode of the job, where the four required files are there and each of the three that the report
  -- has to list is listed with the SHA-256 of the file itself, and where every upload succeeded.
  pub upload_result-IsVerified :
      (uploads : String → Bool) (spec : Spec) (r : Response) (p : Published f out)
      → upload_result f out uploads spec r ≡ ok p
      → IsVerified spec uploads p
  unfolding upload_result
  upload_result-IsVerified uploads spec r p h = elim (Result-cases (check_response f out r)) [
    | inr (x, e) ↦ absurd (ground (arith, e, h))
    | inl (report, e₀) ↦ elim (Result-cases (collect f out (required ++ optional))) [
      | inr (x, e) ↦ absurd (ground (arith, e, e₀, h))
      | inl (files, e₁) ↦ elim (Result-cases (read_documents f out)) [
        | inr (x, e) ↦ absurd (ground (arith, e, e₀, e₁, h))
        | inl (documents, e₂) ↦
            elim (Result-cases (check_report f out spec files report documents.1)) [
              | inr (x, e) ↦ absurd (ground (arith, e, e₀, e₁, e₂, h))
              | inl (u, e₃) ↦
                  verified report files documents e₁ e₂ e₃ (ground (arith, e₀, e₁, e₂, e₃, h))
            ]
      ]
    ]
  ]
    where
      verified :
          (report : Fields) (files : List String) (documents : Fields × Fields)
          → collect f out (required ++ optional) ≡ ok files
          → read_documents f out ≡ ok documents
          → check_report f out spec files report documents.1 ≡ ok tt
          → (p.files ≡ files) × (all_uploaded f out uploads files ≡ true)
          → IsVerified spec uploads p
      verified report files documents e₁ e₂ e₃ (same, sent) =
          let complete = required-among files e₁ in
          let (read, completed) = documents_read documents e₂ in
          let (release, (mode, manifest)) = report_checked spec files report documents.1 e₃ in
          record {
            detailed = documents.1;
            read = read;
            completed = completed;
            release = release;
            mode = mode;
            complete = subst (λ x. All (λ name. among name x ≡ true) required) (sym same) complete;
            listing =
                manifest_listed files (or_empty (get "artifacts" documents.1)) manifest
                  (complete.0, (complete.1.0, (complete.1.1.0, tt)));
            uploaded =
                subst (λ x. All (λ name. uploads name ≡ true) x) (sym same)
                  (all_uploaded-All uploads files sent);
          }
