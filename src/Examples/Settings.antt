-- ===== src/Examples/Settings.antt =====
-- The configuration endpoints, with rates in percent.
use latency_aware_inference.Common.{
  ℕ, ◌-◌, ◌%◌, ◌≡◌, refl, inl, Bool, ◌&&◌, String, str_eq, List, [], ◌∷◌, arith, leb, if◌then◌else◌,
}
use latency_aware_inference.Common.Int.{pos}
use latency_aware_inference.Configuration.{SystemConfig, Server, remote, set_failure_rate}
use latency_aware_inference.Configuration.Valid.{
  IsValid, Call, sizes, schedules, rates, calls, calls-IsValid, is_member, answer,
  set_failure_rate_lem,
}

abbrev is_rate : ℕ → Bool
is_rate n = leb n 100

-- Precision is lost.
abbrev narrow : ℕ → ℕ
narrow n = n - n % 4

abbrev config : SystemConfig ℕ
config = record {
  batch_size = 4;
  num_workers = 4;
  inference_latency_ms = 60;
  scheduler_strategy = "fifo";
  failure_rate = 0;
  latency_threshold_ms = 150;
  max_queue_size = 10000;
  host = "0.0.0.0";
  port = 8000;
}

abbrev server : Server ℕ
server = record {
  config = config;
  backend = remote ("worker-1" ∷ "worker-2" ∷ []);
  simulations = λ id. record { failure_rate = 0; inference_latency_ms = 60 };
}

abbrev answers : String → Bool
answers id = str_eq id "worker-1"

abbrev requests : List (Call is_rate narrow)
requests = sizes (pos 0) ∷ sizes (pos 16) ∷ schedules "latency_aware" ∷ rates answers 101 ∷ []

calls-IsValid_example : IsValid is_rate narrow (calls is_rate narrow requests server).config
calls-IsValid_example =
    calls-IsValid is_rate narrow requests server
      (record { positive = omega arith; bounded = omega arith; known = inl refl; rate = refl })

set_failure_rate_lem_example :
    ((set_failure_rate is_rate narrow answers 7 server).0 ≡ answer narrow answers 7 server.backend)
    × (((set_failure_rate is_rate narrow answers 7 server).1.config
          ≡ record config { failure_rate = 7 })
        × ((id : String)
            → (set_failure_rate is_rate narrow answers 7 server).1.simulations id ≡ (
                if is_member server.backend id && answers id
                then record { failure_rate = narrow 7; inference_latency_ms = narrow 60 }
                else server.simulations id)))
set_failure_rate_lem_example = set_failure_rate_lem narrow answers is_rate 7 server refl
