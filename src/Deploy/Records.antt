-- ===== src/Deploy/Records.antt =====
-- deploy/ci/deploy_platform.py: the files of a deployment that `Runtime` writes, `previous`,
-- `begin_transaction`, `record`, `restore` and `finish`. Its other operations work on the host.
pub mod Replacement
pub mod Outcome
use latency_aware_inference.Common.{
  Bool, true, false, Option, none, some, String, List, [], ◌∷◌, if◌then◌else◌,
}
use latency_aware_inference.Common.Result.{Result, ok, raised}
use latency_aware_inference.Common.Text.{among}
use latency_aware_inference.Deploy.{Action, Runtime}
use latency_aware_inference.Deploy.Command.{Environment, dev, staging}

-- `self.target.containers`, by service.
abbrev pub containers : Environment → List String
containers dev = "deploy-gateway-1" ∷ "deploy-text-worker-1" ∷ []
containers staging =
    "synthx-staging-platform-gateway-1" ∷ "synthx-staging-platform-text-worker-1" ∷ []

-- The configuration that the backend and the platform share: the images of the containers, and its
-- other keys.
pub record Shared : Type 0 where
  pub dependency_images : String → Option String
  pub settings : String

pub record Transaction : Type 0 where
  pub previous : String × String
  pub backend_config : Shared

-- The file of the shared configuration, `current.json` (its images, and its other keys as one text)
-- and `transaction.json`.
pub record Files : Type 0 where
  pub shared_file : Shared
  pub current : String × String
  pub transaction : Option Transaction

-- How `atomic_json` ends: done, or by an exception before or after `os.replace`.
pub data Write : Type 0 where
  written cut_before cut_after : Write

-- The operations on the host; `check` is what `previous` inspects of it.
pub record Host (H : Type 0) : Type 0 where
  pub validate_archive : String → String → String → Action H String Unit
  pub prepare : String → Action H String String
  pub load : String → String → Action H String String
  pub check : String × String → Action H String Unit
  pub busy : Action H String Bool
  pub begin_drain : Action H String Unit
  pub wait_idle : Action H String Unit
  pub stop : Action H String Unit
  pub start : String → String → Action H String Unit
  pub healthy : String → Action H String Bool
  pub end_drain : Action H String Unit
  pub write : H → Write × H

abbrev pub updated : List String → String → Shared → Shared
updated names image shared = record shared {
  dependency_images =
      λ name. if among name names then some image else shared.dependency_images name;
}

module _ {H : Type 0} where
  abbrev pub beside : {A : Type 0} → Files → Result String A × H → Result String A × (H × Files)
  beside f (r, h) = (r, (h, f))

  abbrev pub on_host : {A : Type 0} → Action H String A → Action (H × Files) String A
  on_host action (h, f) = beside f (action h)

  abbrev pub saved : (Files → Files) → Files → Write × H → Result String Unit × (H × Files)
  saved change f (written, h) = (ok tt, (h, change f))
  saved change f (cut_before, h) = (raised "interrupted", (h, f))
  saved change f (cut_after, h) = (raised "interrupted", (h, change f))

  module _ (host : Host H) where
    abbrev pub save : (Files → Files) → Action (H × Files) String Unit
    save change (h, f) = saved change f (host.write h)

    abbrev pub and_save :
        (Files → Files) → Result String Unit × (H × Files) → Result String Unit × (H × Files)
    and_save change (ok _, s) = save change s
    and_save change (raised m, s) = (raised m, s)

    abbrev pub answered :
        String × String
        → Result String Unit × (H × Files)
        → Result String (String × String) × (H × Files)
    answered old (ok _, s) = (ok old, s)
    answered old (raised m, s) = (raised m, s)

    -- `previous`, of a record that needs no bootstrap.
    unfoldable pub previous : Action (H × Files) String (String × String)
    previous s = answered s.1.current (on_host (host.check s.1.current) s)

    -- `shared` is the configuration as `__init__` read it.
    unfoldable pub begin_transaction : Shared → String × String → Action (H × Files) String Unit
    begin_transaction shared old =
        save (λ f. record f {
          transaction = some (record { previous = old; backend_config = shared });
        })

    -- `record`; `document` is the text of a release with the record before it and the time.
    unfoldable pub write_record :
        (String → String × String → String)
        → List String
        → Shared
        → String
        → String
        → String × String
        → Action (H × Files) String Unit
    write_record document names shared release image old s =
        and_save (λ f. record f { current = (document release old, image) })
          (save (λ f. record f { shared_file = updated names image shared }) s)

    unfoldable pub restore : Shared → String × String → Action (H × Files) String Unit
    restore shared old s =
        and_save (λ f. record f { current = old }) (save (λ f. record f { shared_file = shared }) s)

    unfoldable pub finish : Action (H × Files) String Unit
    finish = save (λ f. record f { transaction = none })

    unfoldable pub runtime :
        (String → String × String → String) → Environment → Shared → Runtime (H × Files)
    unfolding previous begin_transaction write_record restore finish
    runtime document e shared = record {
      validate_archive = λ path sha expected. on_host (host.validate_archive path sha expected);
      prepare = λ sha. on_host (host.prepare sha);
      load = λ archive sha. on_host (host.load archive sha);
      previous = previous;
      busy = on_host host.busy;
      begin_transaction = begin_transaction shared;
      begin_drain = on_host host.begin_drain;
      wait_idle = on_host host.wait_idle;
      stop = on_host host.stop;
      start = λ release images. on_host (host.start release images);
      healthy = λ images. on_host (host.healthy images);
      write_record = write_record document (containers e) shared;
      restore = restore shared;
      end_drain = on_host host.end_drain;
      finish = finish;
    }
