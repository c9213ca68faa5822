-- ===== src/Discovery.antt =====
-- system/zookeeper_registry.py: `WorkerDiscovery`, the refresh of its snapshot. What ZooKeeper
-- answers to each read is an argument; so is whether the callback `on_change` raises.
pub mod Refresh
pub mod Wakeup
use latency_aware_inference.Common.{
  Bool, true, false, not, ◌&&◌, ◌||◌, Option, none, some, String, str_eq, List, [], ◌∷◌,
  if◌then◌else◌,
}
use latency_aware_inference.Task.Payload.{Value, null, bool, int, str, arr, obj}
use latency_aware_inference.Pool.{WorkerInfo}

-- The data of a node: JSON metadata with what its two keys hold, a legacy address, or bytes that
-- are no text or no JSON object.
pub data Registered : Type 0 where
  metadata : Option Value → Option Value → Registered
  plain : String → Registered
  unparsed : Registered

-- What a read of a node gives.
pub data Read : Type 0 where
  no_node read_failed : Read
  node : Registered → Read

abbrev pub as_text : Option Value → Option String
as_text (some (str s)) = some s
as_text _ = none

-- The two checks at the end of `_parse_worker`; `none` is an exception.
unfoldable pub checked : Option String → Option String → Option WorkerInfo
checked (some address) (some state) =
    if str_eq address "" || not (str_eq state "READY" || str_eq state "DRAINING")
    then none
    else some (record { address = address; state = state })
checked _ _ = none

unfoldable pub parse_worker : Registered → Option WorkerInfo
unfolding checked
parse_worker (metadata address state) = checked (as_text address) (as_text state)
parse_worker (plain text) = checked (some text) (some "READY")
parse_worker unparsed = none

abbrev pub Snapshot : Type 0
Snapshot = List (String × WorkerInfo)

abbrev pub with_worker : String → Option WorkerInfo → Option Snapshot → Option Snapshot
with_worker child none rest = none
with_worker child (some info) none = none
with_worker child (some info) (some ws) = some ((child, info) ∷ ws)

abbrev pub with_read : String → Read → Option Snapshot → Option Snapshot
with_read child no_node rest = rest
with_read child read_failed rest = none
with_read child (node content) rest = with_worker child (parse_worker content) rest

-- `_read_workers`; the children of a ZooKeeper node have distinct names.
unfoldable pub read_workers : (String → Read) → List String → Option Snapshot
unfolding parse_worker
read_workers get [] = some []
read_workers get (child ∷ rest) = with_read child (get child) (read_workers get rest)

abbrev pub holds : String → WorkerInfo → Snapshot → Bool
holds id info [] = false
holds id info ((j, other) ∷ ws) =
    if str_eq j id
    then str_eq other.address info.address && str_eq other.state info.state
    else holds id info ws

abbrev pub includes : Snapshot → Snapshot → Bool
includes [] ws = true
includes ((id, info) ∷ rest) ws = holds id info ws && includes rest ws

-- Equality of dicts, which forgets the order; `none` is the published snapshot before the first.
unfoldable pub same_workers : Snapshot → Option Snapshot → Bool
same_workers ws none = false
same_workers ws (some published) = includes ws published && includes published ws

-- The state; `notified` is the last snapshot that `on_change` was called with.
pub record Discovery : Type 0 where
  pub workers : Snapshot
  pub published : Option Snapshot
  pub notified : Option Snapshot
  pub watched : List String

abbrev pub is_watched : String → List String → Bool
is_watched id [] = false
is_watched id (w ∷ ws) = str_eq w id || is_watched id ws

-- The loop that subscribes to new paths.
abbrev pub watch_all : List String → List String → List String
watch_all [] watched = watched
watch_all (id ∷ ids) watched =
    watch_all ids (if is_watched id watched then watched else id ∷ watched)

abbrev pub publish : Bool → Snapshot → Discovery → Bool × Discovery
publish raises ws d =
    if same_workers ws d.published
    then (true, record d { workers = ws })
    else if raises
    then (false, record d { workers = ws; notified = some ws })
    else (true, record d { workers = ws; notified = some ws; published = some ws })

abbrev pub refreshed : Bool → Discovery → Option Snapshot → Bool × Discovery
refreshed raises d none = (false, d)
refreshed raises d (some ws) = publish raises ws d

-- `_refresh_workers` of a discovery that is not stopped meanwhile; the first component is whether
-- it returned.
unfoldable pub refresh :
    Option (List String) → (String → Read) → Bool → Discovery → Bool × Discovery
unfolding read_workers same_workers
refresh none get raises d = (false, d)
refresh (some children) get raises d =
    refreshed raises (record d { watched = watch_all children d.watched })
      (read_workers get children)
