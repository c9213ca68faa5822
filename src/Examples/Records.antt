-- ===== src/Examples/Records.antt =====
-- A deployment whose new release is not healthy.
use latency_aware_inference.Common.{◌≡◌, refl, Bool, true, false, none, some, String, str_append}
use latency_aware_inference.Common.Result.{ok, raised}
use latency_aware_inference.Deploy.{deployment_failed, run, transact, replace, roll_back}
use latency_aware_inference.Deploy.Command.{staging}
use latency_aware_inference.Deploy.Records.{
  Shared, Files, Host, written, runtime, previous, begin_transaction, write_record, restore, finish,
}
use latency_aware_inference.Deploy.Records.Outcome.{Outcome, run-Outcome}

-- The state is whether the running release is healthy; a probe is followed by a healthy one.
abbrev host : Host Bool
host = record {
  validate_archive = λ path sha expected h. (ok tt, h);
  prepare = λ sha h. (ok "release-2", h);
  load = λ archive sha h. (ok "image-2", h);
  check = λ old h. (ok tt, h);
  busy = λ h. (ok false, h);
  begin_drain = λ h. (ok tt, h);
  wait_idle = λ h. (ok tt, h);
  stop = λ h. (ok tt, h);
  start = λ release images h. (ok tt, h);
  healthy = λ images h. (ok h, true);
  end_drain = λ h. (ok tt, h);
  write = λ h. (written, h);
}

abbrev document : String → String × String → String
document release old = str_append release (str_append " after " old.0)

abbrev shared : Shared
shared = record { dependency_images = λ name. some "image-1"; settings = "production" }

abbrev files : Files
files = record { shared_file = shared; current = ("release-1", "image-1"); transaction = none }

is_rolled_back :
    (run (runtime host document staging shared) "sha" "archive" "sum" (false, files)).0
    ≡ raised deployment_failed
unfolding run transact replace roll_back runtime previous begin_transaction write_record restore
    finish
is_rolled_back = refl

is_deployed :
    (run (runtime host document staging shared) "sha" "archive" "sum" (true, files)).1.1.current
    ≡ ("release-2 after release-1", "image-2")
unfolding run transact replace roll_back runtime previous begin_transaction write_record restore
    finish
is_deployed = refl

run-Outcome_example :
    Outcome host document staging shared "sha" "archive" "sum" files false
      (run (runtime host document staging shared) "sha" "archive" "sum" (false, files))
run-Outcome_example = run-Outcome host document staging shared "sha" "archive" "sum" files false
