-- ===== src/Examples/Deployment.antt =====
-- A command of the deployment tool, and a drain of the platform.
use latency_aware_inference.Common.{
  ℕ, ◌+◌, ◌≡◌, ◌↔◌, refl, true, false, none, some, List, [], ◌∷◌, All, arith,
}
use latency_aware_inference.Common.Int.{pos}
use latency_aware_inference.Common.Result.{ok}
use latency_aware_inference.Gate.{running_counted}
use latency_aware_inference.Gate.Admission.{counted, events}
use latency_aware_inference.Deploy.Command.{staging, Request, parse_command}
use latency_aware_inference.Deploy.Command.Grammar.{print, is_digested, parse_command_iff}
use latency_aware_inference.Deploy.Drain.{gateway, worker, Platform, published, cut_after}
use latency_aware_inference.Deploy.Drain.Wait.{Round, wait_idle}
use latency_aware_inference.Deploy.Drain.Idle.{Evolves, IsReady, Ends, wait_idle-Ends}
use latency_aware_inference.Deploy.Drain.Owners
use latency_aware_inference.Deploy.Drain.Owners.{
  begins, fences, ends, IsForeign, Leaves, events-IsForeign,
}

abbrev request : Request
request = record {
  environment = staging;
  sha = "0123456789abcdef0123456789abcdef01234567";
  checksum = "0123456789abcdef0123456789abcdef0123456789abcdef0123456789abcdef";
}

parse_command_iff_example :
    (parse_command "deploy-platform-staging latest" ≡ ok request)
    ↔ (("deploy-platform-staging latest" ≡ print request) × (is_digested request ≡ true))
parse_command_iff_example = parse_command_iff "deploy-platform-staging latest" request

-- One request is in progress at each boundary when the drain begins.
abbrev platform : Platform
platform = record {
  control = λ b. none;
  named = λ b. false;
  token = some "t";
  backend_drains = true;
  process = λ b. record { requests = running_counted ∷ []; gate = record { active = pos 1 } };
}

abbrev round : ℕ → Round
round i = record {
  backend =
      some (record { draining = true; is_ours = true; active_requests = 0; active_operations = 0 });
  quiet = some true;
  gateway_answers = true;
  busy = some false;
  publish = published;
  worker_answers = true;
  is_protected = true;
  now = 100 + i;
  before_gateway = λ p. p;
  before_worker = λ p. p;
}

unchanged : (p : Platform) → Evolves p p
unfolding events
unchanged p = record {
  token = refl;
  named = refl;
  kept = λ b e. refl;
  acts = λ b. [];
  requests = λ b. refl;
  draining = λ b e. tt;
}

platform-IsReady : IsReady "t" platform
unfolding counted
platform-IsReady = record { token = refl; counts = λ b. refl }

wait_idle-Ends_example : Ends "t" (wait_idle 5 true published round 103 platform)
wait_idle-Ends_example =
    wait_idle-Ends "t" round 103
      (λ i. record { before_gateway = unchanged; before_worker = unchanged }) 5 3 true published
      platform platform-IsReady (omega arith) (omega arith)

abbrev stale : Platform
stale = record platform { control = λ b. some "older"; token = none }

abbrev history : List Owners.Event
history = begins "t" true ∷ fences cut_after gateway ∷ ends true ∷ []

history-Leaves : All (Leaves worker "older") history
unfolding Leaves
history-Leaves = (refl, (tt, (tt, tt)))

events-IsForeign_example : IsForeign worker "older" (Owners.events history stale)
events-IsForeign_example =
    events-IsForeign worker "older" history stale history-Leaves
      (record { there = refl; foreign = refl })
