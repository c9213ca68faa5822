-- ===== src/Proxy/Ending.antt =====
-- Lemmas on the ends of tasks that pass through a loop of the dispatch.
use latency_aware_inference.Common.{
  ℕ, suc, ◌≡◌, true, Option, some, String, List, [], ◌∷◌, Bool-cases, inl, inr, All, arith,
}
use latency_aware_inference.Task.{Task, is_terminal, is_expired, mark_failed}
use latency_aware_inference.Task.Lifecycle.{mark_failed-Evolves}
use latency_aware_inference.Task.Heap.{Heap, on, IsTerminal, on_self, HeapEvolves-IsTerminal}
use latency_aware_inference.Proxy.Process.{
  Instant, fail_if_expired, is_over, is_terminal_at, split_live, each_at, fail_late,
}
use latency_aware_inference.Proxy.Evolution.{split_live-HeapEvolves, each_at-HeapEvolves}

pub mark_failed-ends :
    (m : String) (c : Option String) (now : ℕ) (t : Task)
    → is_terminal (mark_failed m c now t).status ≡ true
unfolding mark_failed
mark_failed-ends m c now t = ground arith

pub fail-IsTerminal :
    (m : String) (c : Option String) (now r : ℕ) (h : Heap)
    → IsTerminal (on r (mark_failed m c now) h) r
fail-IsTerminal m c now r h =
    rw (on_self (mark_failed m c now) r h) (mark_failed-ends m c now (h r))

-- A task that passed over is terminal afterwards.
pub fail_if_expired-IsTerminal :
    (r : ℕ) (t : Instant) (h : Heap) → is_over h r t ≡ true → IsTerminal (fail_if_expired r t h) r
fail_if_expired-IsTerminal r t h over = elim (Bool-cases (is_terminal_at h r)) [
  | inl ended ↦ rw ended ended
  | inr live ↦
      let late : is_expired (h r) t.monotonic ≡ true = ground arith in
      rw (live, late) (fail-IsTerminal _ _ t.wall r h)
]

-- The batch is the live tasks and tasks that are terminal by now.
pub split_live-All :
    (S : ℕ → Type 0) (clock : ℕ → Instant) (i : ℕ) (rs : List ℕ) (h : Heap)
    → ((r : ℕ) → IsTerminal (split_live clock i rs h).1 r → S r)
    → All S (split_live clock i rs h).0
    → All S rs
unfolding split_live
split_live-All S clock i [] h ended live = tt
split_live-All S clock i (r ∷ rs) h ended live = elim (Bool-cases (is_over h r (clock i))) [
  | inl over ↦ (
    ended r (
        HeapEvolves-IsTerminal
          (split_live-HeapEvolves clock (suc i) rs (fail_if_expired r (clock i) h)) r
          (fail_if_expired-IsTerminal r (clock i) h over)),
    split_live-All S clock (suc i) rs (fail_if_expired r (clock i) h) ended (rw over at live),
  )
  | inr alive ↦
      let both : All S (r ∷ (split_live clock (suc i) rs (fail_if_expired r (clock i) h)).0) =
        rw alive at live in
      (both.0, split_live-All S clock (suc i) rs (fail_if_expired r (clock i) h) ended both.1)
]

pub All-map : (P Q : ℕ → Type 0) → ((r : ℕ) → P r → Q r) → (rs : List ℕ) → All P rs → All Q rs
All-map P Q f [] a = tt
All-map P Q f (r ∷ rs) a = (f r a.0, All-map P Q f rs a.1)

pub fail_late-All :
    (clock : ℕ → Instant) (i : ℕ) (rs : List ℕ) (h : Heap)
    → All (IsTerminal (each_at (fail_late clock) i rs h)) rs
fail_late-All clock i [] h = tt
fail_late-All clock i (r ∷ rs) h = (
  HeapEvolves-IsTerminal
      (each_at-HeapEvolves (fail_late clock)
        (λ j.
          mark_failed-Evolves "request deadline exceeded" (some "deadline_exceeded") (clock j).wall)
        (suc i) rs (on r (fail_late clock i) h))
      r (fail-IsTerminal "request deadline exceeded" (some "deadline_exceeded") (clock i).wall r h),
  fail_late-All clock (suc i) rs (on r (fail_late clock i) h),
)
