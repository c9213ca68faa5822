-- ===== src/Examples/Working.antt =====
-- The worker's side of a call, on two tasks, and a refresh of the discovery.
use latency_aware_inference.Common.{
  String, str_eq, if◌then◌else◌, ◌+◌, ◌*◌, refl, true, none, some, List, [], ◌∷◌, arith,
}
use latency_aware_inference.Task.Payload.{null}
use latency_aware_inference.Proxy.Process.{parsed}
use latency_aware_inference.Server.{ServerTask, Environment, process_batch}
use latency_aware_inference.Server.Answers.{IsAnswered, process_batch-IsAnswered}
use latency_aware_inference.Discovery.{Discovery, Read, node, no_node, plain}

abbrev tasks : List ServerTask
tasks =
    record { task_id = "a"; input_json = parsed null; remaining = some 50 }
    ∷ record { task_id = "b"; input_json = parsed null; remaining = none }
    ∷ []

abbrev environment : Environment
environment = record {
  received = 0;
  first_clock = λ i. 10;
  injected = none;
  started = 20;
  latency_ms = 60;
  is_active = λ j. true;
  round_clock = λ j. 30 + j * 100;
  wait_clock = λ j. 40 + j * 100;
  last_clock = λ i. 300;
}

process_batch-IsAnswered_example : IsAnswered tasks (process_batch 2 7 environment tasks)
process_batch-IsAnswered_example =
    process_batch-IsAnswered environment 2 7 1 tasks (λ j. refl) (λ n l. omega (arith, l))
      (omega arith)

abbrev nodes : String → Read
nodes child = if str_eq child "worker-1" then node (plain "host-1:50051") else no_node

abbrev discovery : Discovery
discovery = record { workers = []; published = none; notified = none; watched = [] }
