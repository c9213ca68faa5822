-- ===== src/Scheduler/Fill.antt =====
-- The two strategies that read the queue task by task.
use latency_aware_inference.Common.{
  ℕ, zero, suc, ◌+◌, ◌-◌, ◌≤◌, ◌<◌, ◌≡◌, refl, sym, subst, ap, ◌∙◌, true, false, Option, none, some,
  List, [], ◌∷◌, ◌++◌, length, ltb, ltb→lt, arith, inl, inr, Bool-cases, ◌&&◌,
}
use mathlib.Core.List.{append_assoc, append-nil}
use latency_aware_inference.Queue.{TaskQueue, get, taken}
use latency_aware_inference.Queue.Fifo.{get_cases}
use latency_aware_inference.Scheduler.{
  Rounds, later, prepend, arrive, fifo_rounds, fifo_next_batch, fill_rounds, batching_next_batch,
  fill_timeout,
}

-- The tasks that other threads put in the first `k` rounds.
abbrev pub arrived : ℕ → (ℕ → List ℕ) → List ℕ
arrived zero a = []
arrived (suc k) a = a 0 ++ arrived k (λ i. a (suc i))

-- A batch that was taken from the front of what the queue held and what came in, in order, and of
-- at most `room` tasks.
abbrev pub Served : Rounds → ℕ → TaskQueue → Option (List ℕ × TaskQueue) → Type 0
Served e room q r =
    (batch : List ℕ) × (q' : TaskQueue) × (k : ℕ) × (r ≡ some (batch, q'))
    × (length batch ≤ room)
    × (batch ++ q'.items ≡ q.items ++ arrived k e.arrivals)

arrive-items : (xs : List ℕ) (q : TaskQueue) → (arrive xs q).items ≡ q.items ++ xs
unfolding arrive
arrive-items xs q = refl

-- One task more in front of a batch.
Served-cons :
    (e : Rounds) (room x : ℕ) (rest : List ℕ) (q q' : TaskQueue) (r : Option (List ℕ × TaskQueue))
    → (arrive (e.arrivals 0) q).items ≡ x ∷ rest
    → q'.items ≡ rest
    → Served (later e) room q' r
    → Served e (suc room) q (prepend x r)
unfolding arrive
Served-cons e room x rest q q' r front back (batch, q'', k, eq, len, order) = (
  x ∷ batch,
  q'',
  suc k,
  rw eq,
  omega arith,
  ap (◌∷◌ x) (order ∙ ap (λ xs. xs ++ arrived k (later e).arrivals) back)
      ∙ ap (λ xs. xs ++ arrived k (later e).arrivals) (sym front)
      ∙ append_assoc q.items (e.arrivals 0) (arrived k (later e).arrivals),
)

-- A round that gets nothing, before the others.
Served-skip :
    (e : Rounds) (room : ℕ) (q q' : TaskQueue) (r : Option (List ℕ × TaskQueue))
    → q'.items ≡ (arrive (e.arrivals 0) q).items
    → Served (later e) room q' r
    → Served e room q r
unfolding arrive
Served-skip e room q q' r same (batch, q'', k, eq, len, order) = (
  batch,
  q'',
  suc k,
  eq,
  len,
  order
      ∙ ap (λ xs. xs ++ arrived k (later e).arrivals) same
      ∙ append_assoc q.items (e.arrivals 0) (arrived k (later e).arrivals),
)

Served-done : (e : Rounds) (room : ℕ) (q : TaskQueue) → Served e room q (some ([], q))
Served-done e room q = ([], q, 0, refl, omega arith, sym (append-nil q.items))

Served-room :
    (e : Rounds) (n limit : ℕ) (q : TaskQueue) (r : Option (List ℕ × TaskQueue))
    → n < limit
    → Served e (suc (limit - suc n)) q r
    → Served e (limit - n) q r
Served-room e n limit q r h s =
    let same : suc (limit - suc n) ≡ limit - n = omega arith in subst (λ m. Served e m q r) same s

module _ (fuel : ℕ) (e : Rounds) (n : ℕ) (q : TaskQueue) where
  fifo_rounds-full : ltb n (e.size 0) ≡ false → fifo_rounds (suc fuel) e n q ≡ some ([], q)
  unfolding fifo_rounds
  fifo_rounds-full h = ground arith

  fifo_rounds-empty :
      ltb n (e.size 0) ≡ true
      → get (arrive (e.arrivals 0) q) ≡ (none, arrive (e.arrivals 0) q)
      → fifo_rounds (suc fuel) e n q ≡ some ([], arrive (e.arrivals 0) q)
  unfolding fifo_rounds
  fifo_rounds-empty h g = ground arith

  fifo_rounds-task :
      (x : ℕ) (q' : TaskQueue)
      → ltb n (e.size 0) ≡ true
      → get (arrive (e.arrivals 0) q) ≡ (some x, q')
      → fifo_rounds (suc fuel) e n q ≡ prepend x (fifo_rounds fuel (later e) (suc n) q')
  unfolding fifo_rounds
  fifo_rounds-task x q' h g = ground arith

fifo_rounds-Served :
    (fuel : ℕ) (e : Rounds) (limit n : ℕ) (q : TaskQueue)
    → ((i : ℕ) → e.size i ≤ limit)
    → limit - n < fuel
    → Served e (limit - n) q (fifo_rounds fuel e n q)
fifo_rounds-Served zero e limit n q hs hf = absurd (omega arith)
fifo_rounds-Served (suc fuel) e limit n q hs hf = elim (Bool-cases (ltb n (e.size 0))) [
  | inr full ↦ rw (fifo_rounds-full fuel e n q full) (Served-done e (limit - n) q)
  | inl room ↦ elim (get_cases (arrive (e.arrivals 0) q)) [
    | inl (nothing, g) ↦ rw (fifo_rounds-empty fuel e n q room g) (
        Served-skip e (limit - n) q (arrive (e.arrivals 0) q) (some ([], arrive (e.arrivals 0) q))
          refl (Served-done (later e) (limit - n) (arrive (e.arrivals 0) q)))
    | inr (x, rest, front, g) ↦
        rw (fifo_rounds-task fuel e n q x (taken (arrive (e.arrivals 0) q) rest) room g) (
          Served-room e n limit q _ (omega (arith, hs 0, ltb→lt n (e.size 0) room)) (
            Served-cons e (limit - suc n) x rest q (taken (arrive (e.arrivals 0) q) rest) _ front
              refl
              (fifo_rounds-Served fuel (later e) limit (suc n)
                (taken (arrive (e.arrivals 0) q) rest) (λ i. hs (suc i))
                (omega (arith, hs 0, ltb→lt n (e.size 0) room)))))
  ]
]

-- The FIFO strategy ends, whatever the readings of a batch size that stays within `limit`, and
-- serves the tasks in the order of their arrival, `limit` of them at most.
pub fifo_next_batch-Served :
    (e : Rounds) (limit : ℕ) (q : TaskQueue)
    → ((i : ℕ) → e.size i ≤ limit)
    → Served e limit q (fifo_next_batch (suc limit) e q)
unfolding fifo_next_batch
fifo_next_batch-Served e limit q hs =
    let s : Served e (limit - 0) q (fifo_rounds (suc limit) e 0 q) =
      fifo_rounds-Served (suc limit) e limit 0 q hs (omega arith) in
    let same : limit - 0 ≡ limit = omega arith in
    subst (λ m. Served e m q (fifo_rounds (suc limit) e 0 q)) same s

module _ (fuel : ℕ) (e : Rounds) (limit n : ℕ) (q : TaskQueue) where
  fill_rounds-stop :
      ltb n (e.size 0) && ltb (e.clock 0) limit ≡ false
      → fill_rounds (suc fuel) e limit n q ≡ some ([], q)
  unfolding fill_rounds
  fill_rounds-stop h = ground arith

  fill_rounds-empty :
      ltb n (e.size 0) && ltb (e.clock 0) limit ≡ true
      → get (arrive (e.arrivals 0) q) ≡ (none, arrive (e.arrivals 0) q)
      → fill_rounds (suc fuel) e limit n q
        ≡ fill_rounds fuel (later e) limit n (arrive (e.arrivals 0) q)
  unfolding fill_rounds
  fill_rounds-empty h g = ground arith

  fill_rounds-task :
      (x : ℕ) (q' : TaskQueue)
      → ltb n (e.size 0) && ltb (e.clock 0) limit ≡ true
      → get (arrive (e.arrivals 0) q) ≡ (some x, q')
      → fill_rounds (suc fuel) e limit n q ≡ prepend x (fill_rounds fuel (later e) limit (suc n) q')
  unfolding fill_rounds
  fill_rounds-task x q' h g = ground arith

-- With a clock that reaches the end of the window in round `k`, more than `k` rounds of fuel are
-- enough.
fill_rounds-Served :
    (k fuel : ℕ) (e : Rounds) (window limit n : ℕ) (q : TaskQueue)
    → ((i : ℕ) → e.size i ≤ limit)
    → window ≤ e.clock k
    → k < fuel
    → Served e (limit - n) q (fill_rounds fuel e window n q)
fill_rounds-Served k zero e window limit n q hs hc hf = absurd (omega arith)
fill_rounds-Served zero (suc fuel) e window limit n q hs hc hf =
    rw (fill_rounds-stop fuel e window n q (ground arith)) (Served-done e (limit - n) q)
fill_rounds-Served (suc k) (suc fuel) e window limit n q hs hc hf =
    elim (Bool-cases (ltb n (e.size 0) && ltb (e.clock 0) window)) [
      | inr stop ↦ rw (fill_rounds-stop fuel e window n q stop) (Served-done e (limit - n) q)
      | inl go ↦ elim (get_cases (arrive (e.arrivals 0) q)) [
        | inl (nothing, g) ↦ rw (fill_rounds-empty fuel e window n q go g) (
            Served-skip e (limit - n) q (arrive (e.arrivals 0) q) _ refl (
              fill_rounds-Served k fuel (later e) window limit n (arrive (e.arrivals 0) q)
                (λ i. hs (suc i)) hc (omega arith)))
        | inr (x, rest, front, g) ↦
            let room : n < limit = ground (arith, hs 0) in
            rw (fill_rounds-task fuel e window n q x (taken (arrive (e.arrivals 0) q) rest) go g) (
              Served-room e n limit q _ room (
                Served-cons e (limit - suc n) x rest q (taken (arrive (e.arrivals 0) q) rest) _
                  front refl
                  (fill_rounds-Served k fuel (later e) window limit (suc n)
                    (taken (arrive (e.arrivals 0) q) rest) (λ i. hs (suc i)) hc (omega arith))))
      ]
    ]

-- The batching strategy ends once its clock has passed the 100 ms window, in round `k` say, and
-- serves the tasks in the order of their arrival, `limit` of them at most.
pub batching_next_batch-Served :
    (k start : ℕ) (e : Rounds) (limit : ℕ) (q : TaskQueue)
    → ((i : ℕ) → e.size i ≤ limit)
    → start + fill_timeout ≤ e.clock k
    → Served e limit q (batching_next_batch (suc k) start e q)
unfolding batching_next_batch
batching_next_batch-Served k start e limit q hs hc =
    let s : Served e (limit - 0) q (fill_rounds (suc k) e (start + fill_timeout) 0 q) =
      fill_rounds-Served k (suc k) e (start + fill_timeout) limit 0 q hs hc (omega arith) in
    let same : limit - 0 ≡ limit = omega arith in
    subst (λ m. Served e m q (fill_rounds (suc k) e (start + fill_timeout) 0 q)) same s
