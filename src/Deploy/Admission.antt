-- ===== src/Deploy/Admission.antt =====
-- What the platform is when `run` ends, by how it ends.
use latency_aware_inference.Common.{◌≡◌, refl, Bool, true, false, String, if◌then◌else◌, arith}
use latency_aware_inference.Common.Result.{Result, ok, raised}
use latency_aware_inference.Deploy.{
  Action, DeployError, active_jobs, rollback_failed, Runtime, continue, ◌then◌, returns, raises,
  renamed, lift, replace, roll_back, Ending, rolled_back, replaced, drained, opened, concluded,
  close, transact, run,
}

module _ {S : Type 0} (C : S → Type 0) where
  -- An operation that keeps the predicate, whether it returns or raises.
  unfoldable pub Keeps : {A : Type 0} → Action S String A → Type 0
  Keeps action = (s : S) → C s → C (action s).1

  then-Keeps :
      {A B : Type 0} (action : Action S String A) (rest : A → Action S String B)
      → Keeps action
      → ((a : A) → Keeps (rest a))
      → Keeps (action then rest)
  unfolding Keeps
  then-Keeps action rest k l s c = after (action s) (k s c)
    where
      after : (x : Result String _ × S) → C x.1 → C (continue x rest).1
      after (ok a, t) d = l a t d
      after (raised m, t) d = d

-- The predicate `C` says that admission is closed: draining closes it, and no operation before
-- `end_drain` opens it.
pub record ClosesAdmission {S : Type 0} (r : Runtime S) (C : S → Type 0) : Type 0 where
  pub drain_closes : (s : S) → (r.begin_drain s).0 ≡ ok tt → C (r.begin_drain s).1
  pub wait_idle_keeps : Keeps C r.wait_idle
  pub stop_keeps : Keeps C r.stop
  pub start_keeps : (release images : String) → Keeps C (r.start release images)
  pub healthy_keeps : (images : String) → Keeps C (r.healthy images)
  pub record_keeps :
      (release images : String) (old : String × String)
      → Keeps C (r.write_record release images old)
  pub restore_keeps : (old : String × String) → Keeps C (r.restore old)

module _ {S : Type 0} (r : Runtime S) (C : S → Type 0) (h : ClosesAdmission r C) where
  restart-Keeps :
      (release images : String) (rest : Bool → Action S String Unit)
      → ((fine : Bool) → Keeps C (rest fine))
      → Keeps C (r.stop then λ _. r.start release images then λ _. r.healthy images then rest)
  restart-Keeps release images rest k =
      then-Keeps C r.stop (λ _. r.start release images then λ _. r.healthy images then rest)
        h.stop_keeps
        (λ _.
          then-Keeps C (r.start release images) (λ _. r.healthy images then rest)
            (h.start_keeps release images)
            (λ _. then-Keeps C (r.healthy images) rest (h.healthy_keeps images) k))

  replace-Keeps :
      (release images : String) (old : String × String) → Keeps C (replace r release images old)
  unfolding replace Keeps
  replace-Keeps release images old =
      restart-Keeps release images
        (λ fine.
          if fine
          then r.write_record release images old
          else raises "Platform health or Vast connectivity check failed")
        checked
    where
      checked :
          (fine : Bool)
          → Keeps C (
              if fine
              then r.write_record release images old
              else raises "Platform health or Vast connectivity check failed")
      checked true = h.record_keeps release images old
      checked false = λ s c. c

  roll_back-Keeps : (old : String × String) → Keeps C (roll_back r old)
  unfolding roll_back Keeps
  roll_back-Keeps (release, images) =
      restart-Keeps release images
        (λ fine.
          if fine then r.restore (release, images) else raises "Previous platform is unhealthy")
        checked
    where
      checked :
          (fine : Bool)
          → Keeps C (
              if fine then r.restore (release, images) else raises "Previous platform is unhealthy")
      checked true = h.restore_keeps (release, images)
      checked false = λ s c. c

  -- The end of the outer `try` reopens admission, and its error is not that of the rollback; or
  -- it leaves admission closed.
  data IsSound : Ending r × S → Type 0 where
    reopens :
        (result : Result DeployError Unit) (transaction : Bool) (s : S)
        → (result ≡ raised rollback_failed → ⊥)
        → IsSound (record { result = result; resume_safe = true; transaction = transaction }, s)
    stays_closed :
        (result : Result DeployError Unit) (transaction : Bool) (s : S)
        → C s
        → IsSound (record { result = result; resume_safe = false; transaction = transaction }, s)

  rolled_back-IsSound : (x : Result String Unit × S) → C x.1 → IsSound (rolled_back r x)
  rolled_back-IsSound (ok _, s) c = reopens _ _ s (λ e. ground (arith, e))
  rolled_back-IsSound (raised m, s) c = stays_closed _ _ s c

  replaced-IsSound :
      (old : String × String) (x : Result String Unit × S) → C x.1 → IsSound (replaced r old x)
  unfolding Keeps
  replaced-IsSound old (ok _, s) c = reopens _ _ s (λ e. ground (arith, e))
  replaced-IsSound old (raised m, s) c =
      rolled_back-IsSound (roll_back r old s) (roll_back-Keeps old s c)

  drained-IsSound :
      (release images : String) (old : String × String) (x : Result String Unit × S)
      → (x.0 ≡ ok tt → C x.1)
      → IsSound (drained r release images old x)
  unfolding Keeps
  drained-IsSound release images old (ok _, s) c =
      replaced-IsSound old (replace r release images old s)
        (replace-Keeps release images old s (c refl))
  drained-IsSound release images old (raised m, s) c = reopens _ _ s (λ e. ground (arith, e))

  opened-IsSound :
      (release images : String) (old : String × String) (x : Result String Unit × S)
      → IsSound (opened r release images old x)
  unfolding Keeps
  opened-IsSound release images old (ok _, s) =
      drained-IsSound release images old _ (begun (r.begin_drain s) (h.drain_closes s))
    where
      begun :
          (x : Result String Unit × S)
          → (x.0 ≡ ok tt → C x.1)
          → (continue x (λ _. r.wait_idle)).0 ≡ ok tt
          → C (continue x (λ _. r.wait_idle)).1
      begun (ok _, t) c e = h.wait_idle_keeps t (c refl)
      begun (raised m, t) c e = ground (arith, e)
  opened-IsSound release images old (raised m, s) = reopens _ _ s (λ e. ground (arith, e))

  close-IsSound :
      (x : Ending r × S) → IsSound x → (close r x).0 ≡ raised rollback_failed → C (close r x).1
  close-IsSound x (reopens result transaction s other) e =
      elim (reopened ((r.end_drain then λ _. if transaction then r.finish else returns tt) s) e) [ ]
    where
      reopened :
          (y : Result String Unit × S)
          → (concluded r result (renamed y)).0 ≡ raised rollback_failed
          → ⊥
      reopened (ok _, t) e = other e
      reopened (raised m, t) e = ground (arith, e)
  close-IsSound x (stays_closed result transaction s c) e = c

  transact-closed :
      (release images : String) (old : String × String) (s : S)
      → (transact r release images old s).0 ≡ raised rollback_failed
      → C (transact r release images old s).1
  unfolding transact
  transact-closed release images old s e =
      close-IsSound (opened r release images old (r.begin_transaction old s))
        (opened-IsSound release images old (r.begin_transaction old s)) e

  -- An error of the rollback leaves `C`.
  unfoldable IsClosing : {A : Type 0} → Action S DeployError A → Type 0
  IsClosing action = (s : S) → (action s).0 ≡ raised rollback_failed → C (action s).1

  lift-IsClosing :
      {A B : Type 0} (action : Action S String A) (rest : A → Action S DeployError B)
      → ((a : A) → IsClosing (rest a))
      → IsClosing (lift action then rest)
  unfolding IsClosing
  lift-IsClosing action rest k s e = after (action s) e
    where
      after :
          (x : Result String _ × S)
          → (continue (renamed x) rest).0 ≡ raised rollback_failed
          → C (continue (renamed x) rest).1
      after (ok a, t) e = k a t e
      after (raised m, t) e = ground (arith, e)

  -- The end of `run`, on the admission that `transact` leaves.
  finish-IsClosing :
      {A : Type 0} (image : A) (action : Action S DeployError Unit)
      → IsClosing action
      → IsClosing (action then λ _. returns image)
  unfolding IsClosing
  finish-IsClosing image action k s e = after (action s) (k s) e
    where
      after :
          (x : Result DeployError Unit × S)
          → (x.0 ≡ raised rollback_failed → C x.1)
          → (continue x (λ _. returns image)).0 ≡ raised rollback_failed
          → C (continue x (λ _. returns image)).1
      after (ok a, t) k e = ground (arith, e)
      after (raised m, t) k e = k (ground (arith, e))

  active-IsClosing :
      (active : Bool) (release image : String) (old : String × String)
      → IsClosing (
          if active
          then raises active_jobs
          else transact r release image old then λ _. returns image)
  unfolding IsClosing
  active-IsClosing true release image old = λ s e. ground (arith, e)
  active-IsClosing false release image old =
      finish-IsClosing image (transact r release image old) (transact-closed release image old)

  -- When the rollback of a deployment fails, for whatever cause, admission is closed at the end
  -- of `run`, under the conditions that draining closes admission, and that waiting, stopping,
  -- starting, probing and recording do not open it.
  pub run-closed :
      (sha archive expected : String) (s : S)
      → (run r sha archive expected s).0 ≡ raised rollback_failed
      → C (run r sha archive expected s).1
  unfolding run IsClosing
  run-closed sha archive expected = lift-IsClosing (r.validate_archive archive sha expected) _ (λ _.
      lift-IsClosing (r.prepare sha) _ (λ release. lift-IsClosing (r.load archive sha) _ (λ image.
        lift-IsClosing r.previous _
          (λ old. lift-IsClosing r.busy _ (λ active. active-IsClosing active release image old)))))
