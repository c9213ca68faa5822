-- ===== src/Deploy.antt =====
-- deploy/ci/deploy_platform.py: `Deployment.run`, over a `Runtime`, whose operations on the host
-- are the fields of an interface: each returns, or raises, in a state of the host.
pub mod Admission
pub mod Command
pub mod Drain
pub mod Records
use latency_aware_inference.Common.Result.{Result, ok, raised}
use latency_aware_inference.Common.{Bool, true, false, String, if◌then◌else◌}

-- An operation on the host.
abbrev pub Action : Type 0 → Type 0 → Type 0 → Type 0
Action S E A = S → Result E A × S

-- The errors of `run`: one that an operation raised, and the `DeployError`s of `run` itself.
pub data DeployError : Type 0 where
  operation_failed : String → DeployError
  active_jobs : DeployError
  deployment_failed : DeployError
  rollback_failed : DeployError

-- `images` is one image for all the services; a release and its pins are one value.
pub record Runtime (S : Type 0) : Type 0 where
  pub validate_archive : String → String → String → Action S String Unit
  pub prepare : String → Action S String String
  pub load : String → String → Action S String String
  pub previous : Action S String (String × String)
  pub busy : Action S String Bool
  pub begin_transaction : String × String → Action S String Unit
  pub begin_drain : Action S String Unit
  pub wait_idle : Action S String Unit
  pub stop : Action S String Unit
  pub start : String → String → Action S String Unit
  pub healthy : String → Action S String Bool
  pub write_record : String → String → String × String → Action S String Unit
  pub restore : String × String → Action S String Unit
  pub end_drain : Action S String Unit
  pub finish : Action S String Unit

module _ {S : Type 0} where
  -- Statements in sequence: an exception skips the rest.
  abbrev pub continue : {E A B : Type 0} → Result E A × S → (A → Action S E B) → Result E B × S
  continue (ok a, s) rest = rest a s
  continue (raised e, s) rest = (raised e, s)

  infixl 20 ◌then◌
  abbrev pub ◌then◌ : {E A B : Type 0} → Action S E A → (A → Action S E B) → Action S E B
  (action then rest) s = continue (action s) rest

  abbrev pub returns : {E A : Type 0} → A → Action S E A
  returns a s = (ok a, s)

  abbrev pub raises : {E A : Type 0} → E → Action S E A
  raises e s = (raised e, s)

  abbrev pub renamed : {A : Type 0} → Result String A × S → Result DeployError A × S
  renamed (ok a, s) = (ok a, s)
  renamed (raised m, s) = (raised (operation_failed m), s)

  abbrev pub lift : {A : Type 0} → Action S String A → Action S DeployError A
  lift action s = renamed (action s)

  module _ (r : Runtime S) where
    -- The body of the inner `try`.
    unfoldable pub replace : String → String → String × String → Action S String Unit
    replace release images previous = r.stop then λ _. r.start release images then λ _.
        r.healthy images then λ fine.
        if fine
        then r.write_record release images previous
        else raises "Platform health or Vast connectivity check failed"

    -- The handler of its failure.
    unfoldable pub roll_back : String × String → Action S String Unit
    roll_back (release, images) = r.stop then λ _. r.start release images then λ _.
        r.healthy images then λ fine.
        if fine then r.restore (release, images) else raises "Previous platform is unhealthy"

    -- How the outer `try` ends: its result, `resume_safe` and `transaction`.
    pub record Ending : Type 0 where
      pub result : Result DeployError Unit
      pub resume_safe : Bool
      pub transaction : Bool

    abbrev pub rolled_back : Result String Unit × S → Ending × S
    rolled_back (ok _, s) =
        (record { result = raised deployment_failed; resume_safe = true; transaction = true }, s)
    rolled_back (raised _, s) =
        (record { result = raised rollback_failed; resume_safe = false; transaction = true }, s)

    abbrev pub replaced : String × String → Result String Unit × S → Ending × S
    replaced previous (ok _, s) =
        (record { result = ok tt; resume_safe = true; transaction = true }, s)
    replaced previous (raised _, s) = rolled_back (roll_back previous s)

    -- Before the first `stop` the running platform is whole, so that admission may resume.
    abbrev pub drained : String → String → String × String → Result String Unit × S → Ending × S
    drained release images previous (ok _, s) =
        replaced previous (replace release images previous s)
    drained release images previous (raised m, s) =
        (record { result = raised (operation_failed m); resume_safe = true; transaction = true }, s)

    abbrev pub opened : String → String → String × String → Result String Unit × S → Ending × S
    opened release images previous (ok _, s) =
        drained release images previous ((r.begin_drain then λ _. r.wait_idle) s)
    opened release images previous (raised m, s) = (
      record { result = raised (operation_failed m); resume_safe = true; transaction = false },
      s,
    )

    abbrev pub concluded :
        Result DeployError Unit → Result DeployError Unit × S → Result DeployError Unit × S
    concluded result (ok _, s) = (result, s)
    concluded result (raised e, s) = (raised e, s)

    -- The `finally` clause.
    abbrev pub close : Ending × S → Result DeployError Unit × S
    close (e, s) =
        if e.resume_safe
        then concluded e.result
            (lift (r.end_drain then λ _. if e.transaction then r.finish else returns tt) s)
        else (e.result, s)

    unfoldable pub transact : String → String → String × String → Action S DeployError Unit
    unfolding replace roll_back
    transact release images previous s =
        close (opened release images previous (r.begin_transaction previous s))

    unfoldable pub run : String → String → String → Action S DeployError String
    unfolding transact
    run sha archive expected = lift (r.validate_archive archive sha expected) then λ _.
        lift (r.prepare sha) then λ release. lift (r.load archive sha) then λ image.
        lift r.previous then λ previous. lift r.busy then λ active.
        if active
        then raises active_jobs
        else transact release image previous then λ _. returns image
