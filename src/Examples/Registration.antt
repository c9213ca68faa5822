-- ===== src/Examples/Registration.antt =====
-- A worker that restores its node in a new session, beside the worker of another session.
use latency_aware_inference.Common.{
  ◌≡◌, refl, true, false, inr, ◌==◌, if◌then◌else◌, none, some, List, [], ◌∷◌, All,
}
use latency_aware_inference.Registry.{
  Node, Nodes, ZooKeeper, applied, lost, Site, new_registry, restore, register, set_state,
}
use latency_aware_inference.Registry.Ownership.{
  Event, registers, sets_state, events, EventLeaves, Leaves,
}
use latency_aware_inference.Registry.Recovery.{IsDue, IsRegistered, events-restored}

abbrev other : Node
other = record { content = record { address = some "host-2:50051"; state = "READY" }; owner = 77 }

abbrev nodes : Nodes
nodes none = none
nodes (some w) = if w == 2 then some other else none

abbrev unchanged : Nodes → Nodes
unchanged x = x

abbrev zookeeper : ZooKeeper
zookeeper = record {
  session = 5;
  path_fails = false;
  create = lost;
  get_fails = false;
  set = applied;
  before_create = unchanged;
  before_get = unchanged;
  before_set = unchanged;
}

abbrev site : Site
site = record { registry = new_registry; nodes = nodes }

abbrev history : List Event
history = registers zookeeper 1 "host-1:50051" ∷ sets_state zookeeper "DRAINING" ∷ []

other_left : All (EventLeaves (some 2) other) history
unfolding EventLeaves
other_left = (left, (left, tt))
  where
    left : Leaves (some 2) other zookeeper
    left = record {
      foreign = refl;
      create_kept = λ x h. h;
      get_kept = λ x h. h;
      set_kept = λ x h. h;
      own_kept = λ x j m h e. h;
    }

abbrev connected : ZooKeeper
connected = record zookeeper { create = applied }

registration-IsDue : IsDue true connected 1 (events history site)
unfolding events register set_state
registration-IsDue = record {
  running = refl;
  named = refl;
  due = refl;
  clear = record {
    path = refl;
    create = refl;
    get = refl;
    set = refl;
    free = inr (
      record { content = record { address = some "host-1:50051"; state = "READY" }; owner = 5 },
      (refl, refl),
    );
    get_kept = λ x m h e. h;
    set_kept = λ x m h e. h;
  };
}

events-restored_example :
    ((events history site).nodes (some 2) ≡ some other)
    × IsRegistered 5
        (events history site).registry
        (restore true true connected (events history site))
events-restored_example =
    events-restored history site (some 2) other true connected 1 other_left refl registration-IsDue
