-- ===== src/Deploy/Records/Outcome.antt =====
-- What the files are when `run` ends.
use latency_aware_inference.Common.{
  ◌≡◌, refl, ap, ◌∙◌, Bool, true, false, none, String, if◌then◌else◌,
}
use latency_aware_inference.Common.Result.{Result, ok, raised}
use latency_aware_inference.Deploy.{
  Action, DeployError, operation_failed, active_jobs, deployment_failed, rollback_failed, Runtime,
  continue, ◌then◌, returns, raises, renamed, lift, replace, roll_back, Ending, rolled_back,
  replaced, drained, opened, concluded, close, transact, run,
}
use latency_aware_inference.Deploy.Command.{Environment}
use latency_aware_inference.Deploy.Records.{
  Shared, Files, Host, beside, on_host, answered, previous, finish, runtime,
}
use latency_aware_inference.Deploy.Records.Replacement.{
  IfOk, IsRecorded, IsRestored, save-elim, replace-IfOk, roll_back-IfOk,
}

module _ {H : Type 0} (host : Host H) (document : String → String × String → String)
    (e : Environment) (shared : Shared) (sha archive expected : String) (f : Files)
    (start : H) where
  abbrev pub r : Runtime (H × Files)
  r = runtime host document e shared

  abbrev pub Recorded : String → String → Files → Type 0
  Recorded = IsRecorded document e shared f

  abbrev pub Restored : Files → Type 0
  Restored = IsRestored document e shared f

  -- What the host prepared and loaded of the archive, after its validation.
  abbrev pub IsMade : String → String → Type 0
  IsMade release image =
      let prepared = host.prepare sha (host.validate_archive archive sha expected start).1 in
      (prepared.0 ≡ ok release) × ((host.load archive sha prepared.1).0 ≡ ok image)

  -- The end of `run`, by its result.
  unfoldable pub Outcome : Result DeployError String × (H × Files) → Type 0
  Outcome (ok image, (h, g)) =
      ((release : String) × (IsMade release image × Recorded release image g))
      × (g.transaction ≡ none)
  Outcome (raised deployment_failed, (h, g)) = Restored g × (g.transaction ≡ none)
  Outcome (raised active_jobs, (h, g)) = g ≡ f
  Outcome (raised rollback_failed, (h, g)) = Unit
  Outcome (raised (operation_failed m), (h, g)) = Unit

  -- How the outer `try` ends, and the files then.
  data IsKnown (release image : String) : Ending r × (H × Files) → Type 0 where
    is_recorded :
        (h : H) (g : Files)
        → Recorded release image g
        → IsKnown release image
            (record { result = ok tt; resume_safe = true; transaction = true }, (h, g))
    is_restored :
        (h : H) (g : Files)
        → Restored g
        → IsKnown release image (
          record { result = raised deployment_failed; resume_safe = true; transaction = true },
          (h, g),
        )
    has_failed :
        (m : String) (resume_safe transaction : Bool) (s : H × Files)
        → IsKnown release image (
          record {
            result = raised (operation_failed m);
            resume_safe = resume_safe;
            transaction = transaction;
          },
          s,
        )
    needs_recovery :
        (s : H × Files)
        → IsKnown release image
            (record { result = raised rollback_failed; resume_safe = false; transaction = true }, s)

  module _ (release image : String) (made : IsMade release image) where
    rolled_back-IsKnown :
        (x : Result String Unit × (H × Files))
        → IfOk Restored x
        → IsKnown release image (rolled_back r x)
    rolled_back-IsKnown (ok _, (h, g)) k = is_restored h g k
    rolled_back-IsKnown (raised m, s) k = needs_recovery s

    replaced-IsKnown :
        (x : Result String Unit × (H × Files))
        → IfOk (Recorded release image) x
        → IsKnown release image (replaced r f.current x)
    replaced-IsKnown (ok _, (h, g)) k = is_recorded h g k
    replaced-IsKnown (raised m, s) k =
        rolled_back-IsKnown (roll_back r f.current s) (roll_back-IfOk host document e shared f s)

    drained-IsKnown :
        (x : Result String Unit × (H × Files))
        → IsKnown release image (drained r release image f.current x)
    drained-IsKnown (ok _, s) =
        replaced-IsKnown (replace r release image f.current s)
          (replace-IfOk host document e shared f release image s)
    drained-IsKnown (raised m, s) = has_failed m _ _ s

    opened-IsKnown :
        (x : Result String Unit × (H × Files))
        → IsKnown release image (opened r release image f.current x)
    opened-IsKnown (ok _, s) = drained-IsKnown ((r.begin_drain then λ _. r.wait_idle) s)
    opened-IsKnown (raised m, s) = has_failed m _ _ s

    -- The results of `transact`, with what `run` returns for them.
    unfoldable Ends : Result DeployError Unit × (H × Files) → Type 0
    Ends (ok _, s) = Outcome (ok image, s)
    Ends (raised m, s) = Outcome (raised m, s)

    -- The `finally` clause clears the transaction, or raises.
    concluded-Ends :
        (result : Result DeployError Unit) (h : H) (g : Files)
        → ((h' : H) → Ends (result, (h', record g { transaction = none })))
        → Ends (concluded r result (lift (r.end_drain then λ _. r.finish) (h, g)))
    unfolding Ends Outcome runtime finish
    concluded-Ends result h g k = after (host.end_drain h)
      where
        after :
            (y : Result String Unit × H)
            → Ends (concluded r result (renamed (continue (beside g y) (λ _. r.finish))))
        after (ok _, h') =
            save-elim host (λ z. Ends (concluded r result (renamed z)))
              (λ g. record g { transaction = none }) (h', g) k (λ m t. tt)
        after (raised m, h') = tt

    failed-Ends :
        (m : String) (y : Result String Unit × (H × Files))
        → Ends (concluded r (raised (operation_failed m)) (renamed y))
    unfolding Ends Outcome
    failed-Ends m (ok _, s) = tt
    failed-Ends m (raised n, s) = tt

    close-Ends : (x : Ending r × (H × Files)) → IsKnown release image x → Ends (close r x)
    unfolding Ends Outcome
    close-Ends x (is_recorded h g k) = concluded-Ends _ h g (λ h'. ((release, (made, k)), refl))
    close-Ends x (is_restored h g k) = concluded-Ends _ h g (λ h'. (k, refl))
    close-Ends x (has_failed m true t s) =
        failed-Ends m ((r.end_drain then λ _. if t then r.finish else returns tt) s)
    close-Ends x (has_failed m false t s) = tt
    close-Ends x (needs_recovery s) = tt

    transact-Ends : (s : H × Files) → Ends (transact r release image f.current s)
    unfolding transact
    transact-Ends s = close-Ends _ (opened-IsKnown (r.begin_transaction f.current s))

    finish-Outcome :
        (x : Result DeployError Unit × (H × Files))
        → Ends x
        → Outcome (continue x (λ _. returns image))
    unfolding Ends
    finish-Outcome (ok _, s) k = k
    finish-Outcome (raised m, s) k = k

    active-Outcome :
        (h : H) (active : Bool)
        → Outcome (
            (if active
                then raises active_jobs
                else transact r release image f.current then λ _. returns image)
              (h, f))
    unfolding Outcome
    active-Outcome h true = refl
    active-Outcome h false = finish-Outcome _ (transact-Ends (h, f))

  -- An operation on the host leaves the files.
  on_host-Outcome :
      {A : Type 0} (action : Action H String A) (rest : A → Action (H × Files) DeployError String)
      (h : H)
      → ((a : A) (h' : H) → action h ≡ (ok a, h') → Outcome (rest a (h', f)))
      → Outcome ((lift (on_host action) then rest) (h, f))
  unfolding Outcome
  on_host-Outcome action rest h k = after (action h) refl
    where
      after :
          (y : Result String _ × H) → action h ≡ y → Outcome (continue (renamed (beside f y)) rest)
      after (ok a, h') q = k a h' q
      after (raised m, h') q = tt

  previous-Outcome :
      (rest : String × String → Action (H × Files) DeployError String) (h : H)
      → ((h' : H) → Outcome (rest f.current (h', f)))
      → Outcome ((lift r.previous then rest) (h, f))
  unfolding Outcome runtime previous
  previous-Outcome rest h k = after (host.check f.current h)
    where
      after :
          (y : Result String Unit × H)
          → Outcome (continue (renamed (answered host f.current (beside f y))) rest)
      after (ok _, h') = k h'
      after (raised m, h') = tt

  -- When `run` ends, whatever the host answers: with an image, the current record is the release
  -- that the host prepared, with the image that it loaded and the record before it, the shared configuration pins the image for both containers
  -- and is as `__init__` read it elsewhere, and no transaction is left; with the error of a
  -- deployment that was rolled back, the current record is as before, the shared configuration is as
  -- `__init__` read it, and no transaction is left; with active jobs, no file has changed.
  pub run-Outcome : Outcome (run r sha archive expected (start, f))
  unfolding run runtime
  run-Outcome = on_host-Outcome (host.validate_archive archive sha expected) _ start (λ _ h1 e1.
      on_host-Outcome (host.prepare sha) _ h1 (λ release h2 e2.
        on_host-Outcome (host.load archive sha) _ h2 (λ image h3 e3. previous-Outcome _ h3 (λ h4.
          on_host-Outcome host.busy _ h4 (λ active h5 e5.
            active-Outcome release image (made h1 release h2 image h3 e1 e2 e3) h5 active)))))
    where
      made :
          (h1 : H) (release : String) (h2 : H) (image : String) (h3 : H)
          → host.validate_archive archive sha expected start ≡ (ok tt, h1)
          → host.prepare sha h1 ≡ (ok release, h2)
          → host.load archive sha h2 ≡ (ok image, h3)
          → IsMade release image
      made h1 release h2 image h3 e1 e2 e3 =
          let p : host.prepare sha (host.validate_archive archive sha expected start).1
              ≡ (ok release, h2) =
            ap (λ x. host.prepare sha x.1) e1 ∙ e2 in
          (ap (λ x. x.0) p, ap (λ x. (host.load archive sha x.1).0) p ∙ ap (λ x. x.0) e3)
