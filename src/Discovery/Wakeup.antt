-- ===== src/Discovery/Wakeup.antt =====
-- system/zookeeper_registry.py: `WorkerDiscovery._refresh_loop` beside the changes of the nodes. The
-- watches of ZooKeeper are a notification that is pending until it is delivered: a change of the
-- children, and a change of a node that is watched, leaves one.
pub mod Clean
pub mod Consistency
pub mod Settling
use latency_aware_inference.Common.{
  ℕ, ◌≡◌, Bool, true, false, not, ◌&&◌, ◌||◌, Option, none, some, String, str_eq, List, [], ◌∷◌,
  if◌then◌else◌,
}
use latency_aware_inference.Common.Text.{among}
use latency_aware_inference.Discovery.{Registered}

-- The data of the nodes by name.
abbrev pub Nodes : Type 0
Nodes = String → Option Registered

-- Where the refresh thread stands: it waits; it has cleared the wakeup; it has the listed children
-- and still watches some of them; it still reads some of them, and has read others.
pub data Phase : Type 0 where
  idle started : Phase
  watching : List String → List String → Phase
  reading : List String → Nodes → Phase

pub record World : Type 0 where
  pub nodes : Nodes
  pub pending : Bool
  pub wakeup : Bool
  pub watched : String → Bool
  pub snapshot : Nodes
  pub phase : Phase

abbrev pub is_there : Option Registered → Bool
is_there none = false
is_there (some r) = true

abbrev pub differs : Bool → Bool → Bool
differs true b = not b
differs false b = b

abbrev pub with_name : {A : Type 0} → String → A → (String → A) → String → A
with_name id a f = λ j. if str_eq id j then a else f j

-- A step of the discovery, or of the world around it.
pub data Step (w : World) : World → Type 0 where
  -- Another process creates, sets or deletes a node.
  changes :
      (id : String) (v : Option Registered)
      → Step w (record w {
        nodes = with_name id v w.nodes;
        pending = w.pending || (w.watched id || differs (is_there (w.nodes id)) (is_there v));
      })
  delivers : Step w (record w { pending = false; wakeup = w.wakeup || w.pending })
  -- `_on_state_change`
  reconnects : Step w (record w { wakeup = true })
  -- `self._wakeup.wait()`, `self._wakeup.clear()`
  wakes : w.phase ≡ idle → w.wakeup ≡ true → Step w (record w { wakeup = false; phase = started })
  -- `get_children`
  lists :
      (ids : List String)
      → w.phase ≡ started
      → ((id : String) → among id ids ≡ is_there (w.nodes id))
      → Step w (record w { phase = watching ids ids })
  -- The loop that calls `_watch_worker` for a name that is not watched; `called` is whether the
  -- callback runs at once.
  watches :
      (id : String) (rest ids : List String) (called : Bool)
      → w.phase ≡ watching (id ∷ rest) ids
      → Step w (record w {
        watched = with_name id true w.watched;
        wakeup = w.wakeup || (not (w.watched id) && called);
        phase = watching rest ids;
      })
  -- `_read_workers`
  begins_reading :
      (ids : List String)
      → w.phase ≡ watching [] ids
      → Step w (record w { phase = reading ids (λ id. none) })
  reads :
      (id : String) (rest : List String) (seen : Nodes)
      → w.phase ≡ reading (id ∷ rest) seen
      → Step w (record w { phase = reading rest (with_name id (w.nodes id) seen) })
  finishes :
      (seen : Nodes)
      → w.phase ≡ reading [] seen
      → Step w (record w { phase = idle; snapshot = seen })
  -- The handler of an exception, with the wait before it sets the wakeup.
  fails : Step w (record w { wakeup = true; phase = idle })

pub data Reach (w : World) : World → Type 0 where
  here : Reach w w
  next : {u v : World} → Reach w u → Step u v → Reach w v
