-- ===== src/Scheduler/Buffer.antt =====
-- The buffer of the latency-aware strategy.
use latency_aware_inference.Common.{
  ℕ, zero, suc, ◌-◌, ◌*◌, ◌≤◌, ◌≡◌, refl, ap, ◌∙◌, Bool, true, false, not, ◌||◌, ◌&&◌, List, [],
  ◌∷◌, ◌++◌, select, take, drop, length, length-append, length-take, elem, ltb, ltb→lt, ◌==◌,
  ==_iff, arith, Bool-cases, inl, inr,
}
use Prim.Native.Nat.{max}
use latency_aware_inference.Task.Heap.{Heap}
use latency_aware_inference.Queue.{TaskQueue, drain}
use latency_aware_inference.Queue.Fifo.{drain_lem}
use latency_aware_inference.Scheduler.{
  insert_by, sort_by, Readings, created, choose, is_old, is_fresh, keep, top_up, latency_next_batch,
}

pub elem-append : (r : ℕ) (xs ys : List ℕ) → elem r (xs ++ ys) ≡ elem r xs || elem r ys
elem-append r [] ys = refl
elem-append r (x ∷ xs) ys = ground (arith, elem-append r xs ys)

elem-nil : (r : ℕ) → elem r [] ≡ false
elem-nil r = refl

-- Selecting keeps what passes the test.
elem-select : (r : ℕ) (p : ℕ → Bool) (xs : List ℕ) → elem r (select p xs) ≡ elem r xs && p r
elem-select r p [] = refl
elem-select r p (x ∷ xs) = elim (Bool-cases (r == x)) [
  | inl same ↦ ground (arith, elem-select r p xs, ap p ((==_iff r x).0 same))
  | inr other ↦ ground (arith, elem-select r p xs)
]

elem-insert_by :
    (r : ℕ) (key : ℕ → ℕ) (x : ℕ) (xs : List ℕ)
    → elem r (insert_by key x xs) ≡ (r == x) || elem r xs
unfolding insert_by
elem-insert_by r key x [] = refl
elem-insert_by r key x (y ∷ ys) = ground (arith, elem-insert_by r key x ys)

elem-sort_by : (r : ℕ) (key : ℕ → ℕ) (xs : List ℕ) → elem r (sort_by key xs) ≡ elem r xs
unfolding sort_by
elem-sort_by r key [] = refl
elem-sort_by r key (x ∷ xs) =
    elem-insert_by r key x (sort_by key xs) ∙ ap (λ b. (r == x) || b) (elem-sort_by r key xs)

elem-take : (r n : ℕ) (xs : List ℕ) → elem r (take n xs) ≡ true → elem r xs ≡ true
elem-take r zero xs h = ground arith
elem-take r (suc n) [] h = h
elem-take r (suc n) (x ∷ xs) h = ground (arith, elem-take r n xs)

-- A batch holds only tasks of the buffer.
choose-elem :
    (h : Heap) (e : Readings) (r : ℕ) (buffer : List ℕ)
    → elem r (choose h e buffer) ≡ true
    → elem r buffer ≡ true
unfolding choose
choose-elem h e r buffer m = ground (
  arith,
  elem-take r e.cut_size _ m,
  elem-append r (sort_by (created h e) (select (is_old h e) buffer))
      (sort_by (created h e) (select (is_fresh h e) buffer)),
  elem-sort_by r (created h e) (select (is_old h e) buffer),
  elem-sort_by r (created h e) (select (is_fresh h e) buffer),
  elem-select r (is_old h e) buffer,
  elem-select r (is_fresh h e) buffer,
)

elem-split : (r n : ℕ) (xs : List ℕ) → elem r (take n xs) || elem r (drop n xs) ≡ elem r xs
elem-split r zero xs = refl
elem-split r (suc n) [] = refl
elem-split r (suc n) (x ∷ xs) = ground (arith, elem-split r n xs)

-- The drain moves tasks from the queue to the buffer.
elem-top_up :
    (h : Heap) (e : Readings) (r : ℕ) (buffer : List ℕ) (q : TaskQueue)
    → elem r buffer || elem r q.items
      ≡ elem r (top_up h e buffer q).0 || elem r (top_up h e buffer q).1.items
unfolding top_up
elem-top_up h e r buffer q = elim (Bool-cases (ltb (length buffer) (e.cap_size * 4))) [
  | inl room ↦
      let n = e.cap_size * 4 - length buffer in
      rw room (
        rw ((drain_lem n q).0, (drain_lem n q).1)
          (ground (arith, elem-append r buffer (take n q.items), elem-split r n q.items)))
  | inr full ↦ rw full refl
]

-- Every task that is in the buffer or in the queue before is in the batch, in the buffer or in the
-- queue after, and no other is; none is both in the batch and in the buffer.
pub latency_next_batch-elem :
    (h : Heap) (e : Readings) (buffer : List ℕ) (q : TaskQueue) (r : ℕ)
    → let (batch, kept, q') = latency_next_batch h e buffer q in
      (elem r buffer || elem r q.items ≡ (elem r batch || elem r kept) || elem r q'.items)
      × (elem r batch && elem r kept ≡ false)
unfolding latency_next_batch keep
latency_next_batch-elem h e buffer q r = ground (
  arith,
  elem-top_up h e r buffer q,
  choose-elem h e r (top_up h e buffer q).0,
  elem-select r (λ x. not (elem x (choose h e (top_up h e buffer q).0))) (top_up h e buffer q).0,
  elem-nil r,
)

length-select-le : (p : ℕ → Bool) (xs : List ℕ) → length (select p xs) ≤ length xs
length-select-le p [] = omega arith
length-select-le p (x ∷ xs) = ground (arith, length-select-le p xs)

length-top_up :
    (h : Heap) (e : Readings) (buffer : List ℕ) (q : TaskQueue)
    → length (top_up h e buffer q).0 ≤ max (length buffer) (e.cap_size * 4)
unfolding top_up
length-top_up h e buffer q = elim (Bool-cases (ltb (length buffer) (e.cap_size * 4))) [
  | inl room ↦ rw room (
      omega (
        arith,
        ltb→lt _ _ room,
        length-append buffer (drain (e.cap_size * 4 - length buffer) q).0,
        ap length (drain_lem (e.cap_size * 4 - length buffer) q).0,
        length-take (e.cap_size * 4 - length buffer) q.items,
      ))
  | inr full ↦ rw full (omega arith)
]

-- The batch fits the batch size, and the buffer stays within four batches once it is.
pub latency_next_batch-bounds :
    (h : Heap) (e : Readings) (buffer : List ℕ) (q : TaskQueue)
    → let (batch, kept, q') = latency_next_batch h e buffer q in
      (length batch ≤ e.cut_size) × (length kept ≤ max (length buffer) (e.cap_size * 4))
unfolding latency_next_batch keep choose
latency_next_batch-bounds h e buffer q = ground (
  arith,
  length-top_up h e buffer q,
  length-select-le (λ x. not (elem x (choose h e (top_up h e buffer q).0))) (top_up h e buffer q).0,
  length-take e.cut_size (
      sort_by (created h e) (select (is_old h e) (top_up h e buffer q).0)
      ++ sort_by (created h e) (select (is_fresh h e) (top_up h e buffer q).0)),
)
