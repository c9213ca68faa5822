-- ===== src/Scheduler/Loop/Turns.antt =====
-- What the turns of the loop keep.
use latency_aware_inference.Common.{
  ℕ, ◌+◌, ◌-◌, ◌*◌, ◌≡◌, ◌≤◌, ◌⊎◌, refl, ap, ◌∙◌, Bool, true, false, ◌||◌, Option, some, str_eq,
  List, [], ◌∷◌, ◌++◌, take, drop, take-drop, length, All, elem, ltb, arith, if_cases, inl, inr,
}
use latency_aware_inference.Queue.{TaskQueue, drain}
use latency_aware_inference.Queue.Fifo.{drain_lem}
use latency_aware_inference.Scheduler.{Readings, arrive, latency_next_batch, top_up, fill_timeout}
use latency_aware_inference.Scheduler.Fill.{
  arrived, Served, fifo_next_batch-Served, batching_next_batch-Served,
}
use latency_aware_inference.Scheduler.Buffer.{elem-append, latency_next_batch-elem}
use latency_aware_inference.Task.Heap.{Heap}
use latency_aware_inference.Scheduler.Loop.{Scheduler, Turn, handled, is_latency_aware, turn, turns}

-- Every task that the scheduler has or had: handed over, in the buffer or in the queue.
abbrev pub held : Scheduler → List ℕ
held s = s.sent ++ (s.buffer ++ s.queue.items)

-- The tasks put before a turn and in `k` rounds of it.
abbrev pub came_in : Turn → ℕ → List ℕ
came_in t k = t.puts ++ arrived k t.rounds.arrivals

-- A turn's readings of the batch size stay within its limit, and its last round is after the window.
pub record IsRead (t : Turn) : Type 0 where
  pub sizes : (i : ℕ) → t.rounds.size i ≤ t.limit
  pub window : t.start + fill_timeout ≤ t.rounds.clock t.last

-- A turn ends, holds what was held and what came in, and leaves the buffer unless it is
-- latency-aware.
abbrev Holds : Turn → Scheduler → Option Scheduler → Type 0
Holds t s o =
    (s' : Scheduler) × (k : ℕ) × (o ≡ some s')
    × ((r : ℕ) → elem r (held s') ≡ (elem r (held s) || elem r (came_in t k)))
    × ((is_latency_aware t ≡ true) ⊎ (s'.buffer ≡ s.buffer))

elem-held :
    (r : ℕ) (s : Scheduler)
    → elem r (held s) ≡ (elem r s.sent || (elem r s.buffer || elem r s.queue.items))
elem-held r s =
    elem-append r s.sent (s.buffer ++ s.queue.items)
    ∙ ap (λ b. elem r s.sent || b) (elem-append r s.buffer s.queue.items)

handled-Holds :
    (t : Turn) (s : Scheduler) (room : ℕ) (o : Option (List ℕ × TaskQueue))
    → Served t.rounds room (arrive t.puts s.queue) o
    → Holds t s (handled s o)
unfolding arrive
handled-Holds t s room o (batch, q', k, e, l, order) = (
  record { buffer = s.buffer; queue = q'; sent = s.sent ++ batch },
  k,
  rw e refl,
  λ r. same r,
  inr refl,
)
  where
    same :
        (r : ℕ)
        → elem r (held (record { buffer = s.buffer; queue = q'; sent = s.sent ++ batch }))
          ≡ (elem r (held s) || elem r (came_in t k))
    same r = ground (
      arith,
      elem-held r s,
      elem-held r (record { buffer = s.buffer; queue = q'; sent = s.sent ++ batch }),
      elem-append r s.sent batch,
      elem-append r batch q'.items,
      elem-append r t.puts (arrived k t.rounds.arrivals),
      elem-append r s.queue.items t.puts,
      elem-append r (s.queue.items ++ t.puts) (arrived k t.rounds.arrivals),
      ap (elem r) order,
    )

-- The drain moves tasks from the queue to the buffer.
elem-top_up :
    (h : Heap) (e : Readings) (buffer : List ℕ) (q : TaskQueue) (r : ℕ)
    → (elem r (top_up h e buffer q).0 || elem r (top_up h e buffer q).1.items)
      ≡ (elem r buffer || elem r q.items)
unfolding top_up
elem-top_up h e buffer q r =
    let n = e.cap_size * 4 - length buffer in
    if_cases
      (λ (x : List ℕ × TaskQueue).
        (elem r x.0 || elem r x.1.items) ≡ (elem r buffer || elem r q.items))
      (ltb (length buffer) (e.cap_size * 4)) _ _
      (λ _. ground (
        arith,
        elem-append r buffer (drain n q).0,
        ap (elem r) (drain_lem n q).0,
        ap (elem r) (drain_lem n q).1,
        elem-append r (take n q.items) (drop n q.items),
        ap (elem r) (take-drop n q.items),
      ))
      (λ _. refl)

latency_queue :
    (h : Heap) (e : Readings) (buffer : List ℕ) (q : TaskQueue)
    → (latency_next_batch h e buffer q).2 ≡ (top_up h e buffer q).1
unfolding latency_next_batch
latency_queue h e buffer q = ground arith

latency-Holds :
    (t : Turn) (s : Scheduler)
    → is_latency_aware t ≡ true
    → Holds t s (
        let (batch, kept, q') =
          latency_next_batch t.heap t.readings s.buffer (arrive t.puts s.queue) in
        some (record { buffer = kept; queue = q'; sent = s.sent ++ batch }))
unfolding arrive
latency-Holds t s a =
    let q = arrive t.puts s.queue in
    let x = latency_next_batch t.heap t.readings s.buffer q in
    let s' : Scheduler = record { buffer = x.1; queue = x.2; sent = s.sent ++ x.0 } in
    (s', 0, refl, (λ r. same r), inl a)
  where
    same :
        (r : ℕ)
        → let x = latency_next_batch t.heap t.readings s.buffer (arrive t.puts s.queue) in
          elem r (held (record { buffer = x.1; queue = x.2; sent = s.sent ++ x.0 }))
          ≡ (elem r (held s) || elem r (came_in t 0))
    same r =
        let q = arrive t.puts s.queue in
        let x = latency_next_batch t.heap t.readings s.buffer q in
        ground (
          arith,
          elem-held r s,
          elem-held r (record { buffer = x.1; queue = x.2; sent = s.sent ++ x.0 }),
          elem-append r s.sent x.0,
          elem-append r s.queue.items t.puts,
          elem-append r t.puts [],
          elem-top_up t.heap t.readings s.buffer q r,
          ap (λ (y : TaskQueue). elem r y.items) (latency_queue t.heap t.readings s.buffer q),
          (latency_next_batch-elem t.heap t.readings s.buffer q r).0,
        )

turn-Holds : (t : Turn) (s : Scheduler) → IsRead t → Holds t s (turn t s)
unfolding turn arrive
turn-Holds t s i =
    let q = arrive t.puts s.queue in
    if_cases (Holds t s) (str_eq t.strategy "fifo") _ _
      (λ _. handled-Holds t s t.limit _ (fifo_next_batch-Served t.rounds t.limit q i.sizes))
      (λ _.
        if_cases (Holds t s) (str_eq t.strategy "batching") _ _
          (λ _.
            handled-Holds t s t.limit _
              (batching_next_batch-Served t.last t.start t.rounds t.limit q i.sizes i.window))
          (λ _.
            if_cases (Holds t s) (is_latency_aware t) _ _ (λ a. latency-Holds t s a) (λ _. idle)))
  where
    idle : Holds t s (some (record s { queue = arrive t.puts s.queue }))
    idle =
        let s' : Scheduler = record s { queue = arrive t.puts s.queue } in
        (
          s',
          0,
          refl,
          (λ r. ground (
            arith,
            elem-held r s,
            elem-held r s',
            elem-append r s.queue.items t.puts,
            elem-append r t.puts [],
          )),
          inr refl,
        )

-- What came in during a sequence of turns, whose numbers of rounds are the list.
unfoldable pub came : List Turn → List ℕ → List ℕ
came [] ks = []
came (t ∷ ts) [] = t.puts ++ came ts []
came (t ∷ ts) (k ∷ ks) = came_in t k ++ came ts ks

abbrev pub any_latency_aware : List Turn → Bool
any_latency_aware [] = false
any_latency_aware (t ∷ ts) = is_latency_aware t || any_latency_aware ts

-- Any sequence of turns ends, whatever strategies they read, where the batch sizes that they read
-- stay within the limit and the clock passes the batching window. After it the tasks handed over,
-- in the buffer and in the queue are those that were there before and those that came in, so that
-- no change of the strategy loses or makes up a task; but the buffer stays as it was unless one of
-- the turns is latency-aware.
pub turns-held :
    (ts : List Turn) (s : Scheduler)
    → All IsRead ts
    → (s' : Scheduler) × (ks : List ℕ) × (turns ts s ≡ some s')
      × ((r : ℕ) → elem r (held s') ≡ (elem r (held s) || elem r (came ts ks)))
      × ((any_latency_aware ts ≡ true) ⊎ (s'.buffer ≡ s.buffer))
unfolding turns came
turns-held [] s i = (s, [], refl, (λ r. ground arith), inr refl)
turns-held (t ∷ ts) s i =
    let (s₁, k, e₁, same₁, buffer₁) = turn-Holds t s i.0 in
    let (s₂, ks, e₂, same₂, buffer₂) = turns-held ts s₁ i.1 in
    (
      s₂,
      k ∷ ks,
      rw e₁ e₂,
      (λ r. ground (arith, same₁ r, same₂ r, elem-append r (came_in t k) (came ts ks))),
      unless_latency buffer₁ buffer₂,
    )
  where
    unless_latency :
        {a b c : List ℕ}
        → (is_latency_aware t ≡ true) ⊎ (b ≡ a)
        → (any_latency_aware ts ≡ true) ⊎ (c ≡ b)
        → ((is_latency_aware t || any_latency_aware ts) ≡ true) ⊎ (c ≡ a)
    unless_latency (inl x) y = inl (rw x refl)
    unless_latency (inr x) (inl y) = inl (ground (arith, y))
    unless_latency (inr x) (inr y) = inr (y ∙ x)
