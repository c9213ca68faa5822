-- ===== src/Examples/Watching.antt =====
-- A worker that drains while the discovery reads its node.
use latency_aware_inference.Common.{
  ◌≡◌, refl, Bool, true, false, ◌||◌, none, some, String, str_eq, List, [], ◌∷◌, if◌then◌else◌,
}
use latency_aware_inference.Common.Text.{among}
use latency_aware_inference.Task.Payload.{str}
use latency_aware_inference.Discovery.{Registered, plain, metadata}
use latency_aware_inference.Discovery.Wakeup.{
  Nodes, idle, started, World, is_there, with_name, changes, delivers, wakes, lists, watches,
  begins_reading, reads, finishes, Reach, here, next,
}
use latency_aware_inference.Discovery.Wakeup.Consistency.{reach-snapshot}

abbrev ready : Registered
ready = plain "host-1:50051"

abbrev drained : Registered
drained = metadata (some (str "host-1:50051")) (some (str "DRAINING"))

abbrev names : List String
names = "worker-1" ∷ []

abbrev nodes_before : Nodes
nodes_before = with_name "worker-1" (some ready) (λ id. none)

abbrev nodes_after : Nodes
nodes_after = with_name "worker-1" (some drained) nodes_before

abbrev beginning : World
beginning = record {
  nodes = nodes_before;
  pending = false;
  wakeup = false;
  watched = λ id. false;
  snapshot = λ id. none;
  phase = started;
}

abbrev watched_names : String → Bool
watched_names = with_name "worker-1" true (λ id. false)

abbrev stale : World
stale = record {
  nodes = nodes_after;
  pending = true;
  wakeup = false;
  watched = watched_names;
  snapshot = with_name "worker-1" (some ready) (λ id. none);
  phase = idle;
}

abbrev settled : World
settled = record {
  nodes = nodes_after;
  pending = false;
  wakeup = false;
  watched = with_name "worker-1" true watched_names;
  snapshot = with_name "worker-1" (some drained) (λ id. none);
  phase = idle;
}

named_once : (b : Bool) (r : Registered) → (b || false) ≡ is_there (if b then some r else none)
named_once true r = refl
named_once false r = refl

named_twice :
    (b : Bool)
    → (b || false) ≡ is_there (if b then some drained else if b then some ready else none)
named_twice true = refl
named_twice false = refl

before-names : (id : String) → among id names ≡ is_there (nodes_before id)
before-names id = named_once (str_eq "worker-1" id) ready

after-names : (id : String) → among id names ≡ is_there (nodes_after id)
after-names id = named_twice (str_eq "worker-1" id)

-- The node changes after it is read.
to_stale : Reach beginning stale
to_stale =
    next
      (next
        (next
          (next
            (next (next here (lists names refl before-names))
              (watches "worker-1" [] names false refl))
            (begins_reading names refl))
          (reads "worker-1" [] (λ id. none) refl))
        (changes "worker-1" (some drained)))
      (finishes (with_name "worker-1" (some ready) (λ id. none)) refl)

to_settled : Reach beginning settled
to_settled =
    next
      (next
        (next
          (next
            (next (next (next to_stale delivers) (wakes refl refl)) (lists names refl after-names))
            (watches "worker-1" [] names false refl))
          (begins_reading names refl))
        (reads "worker-1" [] (λ id. none) refl))
      (finishes (with_name "worker-1" (some drained) (λ id. none)) refl)

reach-snapshot_example : settled.snapshot "worker-1" ≡ some drained
reach-snapshot_example = reach-snapshot beginning settled refl to_settled refl refl refl "worker-1"
