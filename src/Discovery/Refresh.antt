-- ===== src/Discovery/Refresh.antt =====
-- What a refresh does with the answers of ZooKeeper, and what the pool was told after it.
use latency_aware_inference.Common.{
  ◌≡◌, Option, none, some, String, str_eq, List, [], ◌∷◌, ◌⊎◌, if◌then◌else◌,
}
use latency_aware_inference.Pool.{WorkerInfo}
use latency_aware_inference.Discovery.{
  Discovery, Read, no_node, read_failed, node, Registered, Snapshot, parse_worker,
}

-- The snapshot that the answers to the reads of the children make up: a node that is missing is left
-- out, and every other one is there with the worker that its data describe.
pub data IsReadOf (get : String → Read) : List String → Snapshot → Type 0 where
  no_children : IsReadOf get [] []
  is_missing :
      (id : String) {ids : List String} {ws : Snapshot}
      → get id ≡ no_node
      → IsReadOf get ids ws
      → IsReadOf get (id ∷ ids) ws
  is_there :
      (id : String) (content : Registered) (info : WorkerInfo) {ids : List String} {ws : Snapshot}
      → get id ≡ node content
      → parse_worker content ≡ some info
      → IsReadOf get ids ws
      → IsReadOf get (id ∷ ids) ((id, info) ∷ ws)

-- Some child cannot be read, or has data that describe no worker.
pub data HasBroken (get : String → Read) : List String → Type 0 where
  unread : (id : String) (ids : List String) → get id ≡ read_failed → HasBroken get (id ∷ ids)
  unparsed :
      (id : String) (ids : List String) (content : Registered)
      → get id ≡ node content
      → parse_worker content ≡ none
      → HasBroken get (id ∷ ids)
  further : (id : String) {ids : List String} → HasBroken get ids → HasBroken get (id ∷ ids)

-- What the reads give: a snapshot of them all, or nothing where one is broken.
abbrev IsOutcome : (String → Read) → List String → Option Snapshot → Type 0
IsOutcome get ids none = HasBroken get ids
IsOutcome get ids (some ws) = IsReadOf get ids ws

-- The worker of a name.
abbrev pub lookup : String → Snapshot → Option WorkerInfo
lookup id [] = none
lookup id ((j, info) ∷ ws) = if str_eq j id then some info else lookup id ws

-- Two snapshots with the same worker for every name.
abbrev pub IsSame : Snapshot → Snapshot → Type 0
IsSame ws vs = (id : String) → lookup id ws ≡ lookup id vs

-- The pool's view after a refresh that returned: it was told the snapshot that was read, or the
-- last one it took has the same worker for every name.
unfoldable pub IsCurrent : Discovery → Type 0
IsCurrent d =
    ((d.notified ≡ some d.workers) × (d.published ≡ some d.workers))
    ⊎ ((vs : Snapshot) × ((d.published ≡ some vs) × IsSame d.workers vs))
