-- ===== src/Discovery/Wakeup/Settling.antt =====
-- Runs of the refresh thread and of deliveries, without a change meanwhile.
use latency_aware_inference.Common.{◌≡◌, false}
use latency_aware_inference.Discovery.Wakeup.{
  Phase, World, Step, changes, reconnects, fails, delivers, wakes, lists, watches, begins_reading,
  reads, finishes, Reach, next,
}

-- A step that is no change of a node, no reconnection and no exception.
abbrev pub IsInner : {w u : World} → Step w u → Type 0
IsInner (changes id v) = ⊥
IsInner reconnects = ⊥
IsInner fails = ⊥
IsInner delivers = Unit
IsInner (wakes e t) = Unit
IsInner (lists ids e l) = Unit
IsInner (watches id rest ids called e) = Unit
IsInner (begins_reading ids e) = Unit
IsInner (reads id rest seen e) = Unit
IsInner (finishes seen e) = Unit

-- Steps of the thread and deliveries of notifications, and nothing else.
pub data Run (w : World) : World → Type 0 where
  stays : Run w w
  goes : {u v : World} → Run w u → (s : Step u v) → IsInner s → Run w v

joined : {s w u : World} → Reach s w → Run w u → Reach s u
joined r stays = r
joined r (goes q s i) = next (joined r q) s

-- The thread reaches the phase with no notification left, and the nodes are as before.
abbrev Arrives : Phase → World → Type 0
Arrives p w =
    (u : World) × (Run w u
      × ((u.phase ≡ p) × ((u.nodes ≡ w.nodes) × ((u.pending ≡ false) × (u.wakeup ≡ false)))))

abbrev IsQuiet : World → Type 0
IsQuiet w = (w.pending ≡ false) × (w.wakeup ≡ false)
