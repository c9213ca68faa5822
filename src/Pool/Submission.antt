-- ===== src/Pool/Submission.antt =====
-- `GrpcWorkerPool.submit` as a whole: where the tasks of a submitted batch are afterwards.
use latency_aware_inference.Common.{
  ℕ, suc, ◌+◌, ◌≡◌, refl, sym, ap, ◌∙◌, subst, Bool, true, false, not, ◌||◌, Option, none, some,
  String, List, [], ◌∷◌, ◌++◌, select, elem, ◌==◌, ==_iff, if◌then◌else◌, if_cases, Bool-cases,
  Option-cases, All, arith, inl, inr, ◌⊎◌,
}
use latency_aware_inference.Task.{mark_failed}
use latency_aware_inference.Task.Lifecycle.{mark_failed-Evolves}
use latency_aware_inference.Task.Payload.{Value}
use latency_aware_inference.Task.Heap.{
  Heap, IsTerminal, HeapEvolves, HeapEvolves-refl, HeapEvolves-trans, HeapEvolves-IsTerminal,
}
use latency_aware_inference.Proxy.{GrpcWorker, try_submit}
use latency_aware_inference.Proxy.Process.{Instant}
use latency_aware_inference.Proxy.Evolution.{each_at-HeapEvolves, fail-HeapEvolves}
use latency_aware_inference.Proxy.Ending.{fail-IsTerminal, All-map}
use latency_aware_inference.Pool.{
  Pool, kind, kind_name, add_to_group, group_task, group_tasks, route, offer, offer_in, identities,
  fail_batch, ready_for, submit_elsewhere, submit_compatible, submit_groups, submit,
}
use latency_aware_inference.Pool.Placement.{
  Placed, here, there, offer-Placed, offer_in-Placed, waiting, Placed-waiting,
}
use latency_aware_inference.Pool.Routing.{IsNamed, IsBenign, submit_compatible-IsRouted}

abbrev pub Waits : List GrpcWorker → ℕ → Type 0
Waits ws r = waiting r ws ≡ true

-- The proxies lose no waiting task from one list to the other.
abbrev Keeps : List GrpcWorker → List GrpcWorker → Type 0
Keeps ws ws' = (r : ℕ) → Waits ws r → Waits ws' r

trivially : (ws : List GrpcWorker) (P : GrpcWorker → Type 0) → All (λ w. P w → Unit {0}) ws
trivially [] P = tt
trivially (w ∷ ws) P = (λ _. tt, trivially ws P)

pub trivially-All :
    (objects : List ℕ) (ws : List GrpcWorker)
    → All (λ object. All (λ w. w.identity ≡ object → Unit {0}) ws) objects
trivially-All [] ws = tt
trivially-All (o ∷ os) ws = (trivially ws (λ w. w.identity ≡ o), trivially-All os ws)

Placed-Keeps :
    (b : List ℕ) {ws ws' : List GrpcWorker} → Placed (λ w. Unit {0}) b ws ws' → Keeps ws ws'
Placed-Keeps b p r h = ground (arith, Placed-waiting (λ w. Unit {0}) b r p)

try_submit-names :
    (w : GrpcWorker) (b : List ℕ)
    → ((try_submit w b).1.identity ≡ w.identity) × ((try_submit w b).1.worker_id ≡ w.worker_id)
unfolding try_submit
try_submit-names w b = ground arith

Placed-IsNamed :
    (names : ℕ → String) (C : GrpcWorker → Type 0) (b : List ℕ) {ws ws' : List GrpcWorker}
    → Placed C b ws ws'
    → IsNamed names ws
    → IsNamed names ws'
Placed-IsNamed names C b (here w ws c t) a =
    ((try_submit-names w b).1 ∙ a.0 ∙ ap names (sym (try_submit-names w b).0), a.1)
Placed-IsNamed names C b (there w p) a = (a.0, Placed-IsNamed names C b p a.1)

offer-IsNamed :
    (names : ℕ → String) (object : ℕ) (b : List ℕ) (ws : List GrpcWorker)
    → IsNamed names ws
    → IsNamed names (offer object b ws).1
offer-IsNamed names object b ws a =
    elim (offer-Placed (λ w. Unit {0}) b object ws (trivially ws (λ w. w.identity ≡ object))) [
      | inl (t, p) ↦ Placed-IsNamed names (λ w. Unit {0}) b p a
      | inr (t, e) ↦ rw e a
    ]

offer_in-IsNamed :
    (names : ℕ → String) (objects b : List ℕ) (ws : List GrpcWorker)
    → IsNamed names ws
    → IsNamed names (offer_in objects b ws).1
offer_in-IsNamed names objects b ws a =
    elim (offer_in-Placed (λ w. Unit {0}) b objects ws (trivially-All objects ws)) [
      | inl (t, p) ↦ Placed-IsNamed names (λ w. Unit {0}) b p a
      | inr (t, e) ↦ rw e a
    ]

offer-Keeps : (object : ℕ) (b : List ℕ) (ws : List GrpcWorker) → Keeps ws (offer object b ws).1
offer-Keeps object b ws =
    elim (offer-Placed (λ w. Unit {0}) b object ws (trivially ws (λ w. w.identity ≡ object))) [
      | inl (t, p) ↦ Placed-Keeps b p
      | inr (t, e) ↦ rw e (λ r h. h)
    ]

pub offer_in-Keeps :
    (objects b : List ℕ) (ws : List GrpcWorker) → Keeps ws (offer_in objects b ws).1
offer_in-Keeps objects b ws =
    elim (offer_in-Placed (λ w. Unit {0}) b objects ws (trivially-All objects ws)) [
      | inl (t, p) ↦ Placed-Keeps b p
      | inr (t, e) ↦ rw e (λ r h. h)
    ]

-- What a step of the submission keeps: waiting tasks wait, terminal tasks are terminal.
pub record Progress (names : ℕ → String) (before after : Pool × Heap) : Type 0 where
  pub kept : (r : ℕ) → Waits before.0.workers r → Waits after.0.workers r
  pub named : IsNamed names before.0.workers → IsNamed names after.0.workers
  pub evolved : HeapEvolves before.1 after.1

Progress-refl : (names : ℕ → String) (x : Pool × Heap) → Progress names x x
Progress-refl names x = record { kept = λ r h. h; named = λ a. a; evolved = HeapEvolves-refl x.1 }

Progress-trans :
    {names : ℕ → String} {x y z : Pool × Heap}
    → Progress names x y
    → Progress names y z
    → Progress names x z
Progress-trans a b = record {
  kept = λ r h. b.kept r (a.kept r h);
  named = λ k. b.named (a.named k);
  evolved = HeapEvolves-trans a.evolved b.evolved;
}

fail_batch-Progress :
    (names : ℕ → String) (m c : String) (clock : ℕ → Instant) (b : List ℕ) (p : Pool) (h : Heap)
    → Progress names (p, h) (p, fail_batch m c clock b h)
fail_batch-Progress names m c clock b p h = record {
  kept = λ r w. w;
  named = λ a. a;
  evolved =
      each_at-HeapEvolves (λ i. mark_failed m (some c) (clock i).wall)
        (λ i. mark_failed-Evolves m (some c) (clock i).wall) 0 b h;
}

All-of : {Q : ℕ → Type 0} (rs : List ℕ) → ((r : ℕ) → elem r rs ≡ true → Q r) → All Q rs
All-of [] f = tt
All-of (r ∷ rs) f = (f r (ground arith), All-of rs (λ q m. f q (ground arith)))

All-elem : (Q : ℕ → Type 0) (rs : List ℕ) (q : ℕ) → All Q rs → elem q rs ≡ true → Q q
All-elem Q [] q a m = absurd (cc)
All-elem Q (r ∷ rs) q a m = elim (Bool-cases (q == r)) [
  | inl same ↦ subst Q (sym ((==_iff q r).0 same)) a.0
  | inr other ↦ All-elem Q rs q a.1 (ground arith)
]

-- The task stands in one of the groups.
abbrev grouped : ℕ → List (String × List ℕ) → Bool
grouped r [] = false
grouped r ((k, rs) ∷ gs) = elem r rs || grouped r gs

elem-snoc : (q r : ℕ) (rs : List ℕ) → elem q (rs ++ r ∷ []) ≡ elem q rs || q == r
elem-snoc q r [] = ground arith
elem-snoc q r (x ∷ rs) = ground (arith, elem-snoc q r rs)

grouped-add_to_group :
    (q : ℕ) (k : String) (r : ℕ) (gs : List (String × List ℕ))
    → grouped q (add_to_group k r gs) ≡ grouped q gs || q == r
grouped-add_to_group q k r [] = ground arith
grouped-add_to_group q k r ((j, rs) ∷ gs) =
    ground (arith, elem-snoc q r rs, grouped-add_to_group q k r gs)

-- One task is grouped, or fails; the groups only grow.
group_task-lem :
    (t : Instant) (r : ℕ) (gs : List (String × List ℕ)) (h : Heap)
    → let (gs', h') = group_task t r gs h in
      HeapEvolves h h'
      × ((q : ℕ) → grouped q gs ≡ true → grouped q gs' ≡ true)
      × (IsTerminal h' r ⊎ (grouped r gs' ≡ true))
unfolding group_task
group_task-lem t r gs h = go (kind_name (kind (h r).input_data)) refl
  where
    go :
        (o : Option String)
        → kind_name (kind (h r).input_data) ≡ o
        → let (gs', h') = group_task t r gs h in
          HeapEvolves h h'
          × ((q : ℕ) → grouped q gs ≡ true → grouped q gs' ≡ true)
          × (IsTerminal h' r ⊎ (grouped r gs' ≡ true))
    go none e =
        rw (e, group_task)
          (
            fail-HeapEvolves "invalid task kind" (some "invalid_spec") t.wall r h,
            (λ q m. m),
            inl (fail-IsTerminal "invalid task kind" (some "invalid_spec") t.wall r h),
          )
    go (some k) e =
        rw (e, group_task)
          (
            HeapEvolves-refl h,
            (λ q m. ground (arith, grouped-add_to_group q k r gs)),
            inr (ground (arith, grouped-add_to_group r k r gs)),
          )

group_tasks-keeps :
    (clock : ℕ → Instant) (i : ℕ) (rs : List ℕ) (gs : List (String × List ℕ)) (h : Heap)
    → HeapEvolves h (group_tasks clock i rs gs h).1
      × ((q : ℕ) → grouped q gs ≡ true → grouped q (group_tasks clock i rs gs h).0 ≡ true)
unfolding group_tasks
group_tasks-keeps clock i [] gs h = (HeapEvolves-refl h, λ q m. m)
group_tasks-keeps clock i (r ∷ rs) gs h =
    let first = group_task-lem (clock i) r gs h in
    let next = group_task (clock i) r gs h in
    let rest = group_tasks-keeps clock (suc i) rs next.0 next.1 in
    (HeapEvolves-trans first.0 rest.0, λ q m. rest.1 q (first.1 q m))

group_tasks-covers :
    (clock : ℕ → Instant) (i : ℕ) (rs : List ℕ) (gs : List (String × List ℕ)) (h : Heap)
    → All
        (λ r.
          IsTerminal (group_tasks clock i rs gs h).1 r
          ⊎ (grouped r (group_tasks clock i rs gs h).0 ≡ true))
        rs
unfolding group_tasks
group_tasks-covers clock i [] gs h = tt
group_tasks-covers clock i (r ∷ rs) gs h =
    let next = group_task (clock i) r gs h in
    let rest = group_tasks-keeps clock (suc i) rs next.0 next.1 in
    (
      elim (group_task-lem (clock i) r gs h).2 [
        | inl t ↦ inl (HeapEvolves-IsTerminal rest.0 r t)
        | inr m ↦ inr (rest.1 r m)
      ],
      group_tasks-covers clock (suc i) rs next.0 next.1,
    )

-- The threads that run meanwhile dispatch none of the waiting tasks.
module _ (names : ℕ → String) (meanwhile : Pool → Pool) (benign : IsBenign names meanwhile)
    (patient : (p : Pool) (r : ℕ) → Waits p.workers r → Waits (meanwhile p).workers r)
    (clock : ℕ → Instant) where
  submit_elsewhere-Progress :
      (w : GrpcWorker) (input : Value) (b : List ℕ) (p : Pool) (h : Heap)
      → Progress names (p, h) (submit_elsewhere w clock input b p h)
  unfolding submit_elsewhere
  submit_elsewhere-Progress w input b p h =
      let objects = identities (select (λ v. not (v.identity == w.identity)) (ready_for p input)) in
      if_cases (Progress names (p, h)) (offer_in objects b p.workers).0 _ _
        (λ _. record {
          kept = offer_in-Keeps objects b p.workers;
          named = offer_in-IsNamed names objects b p.workers;
          evolved = HeapEvolves-refl h;
        })
        (λ _. fail_batch-Progress names "all workers at capacity" "overloaded" clock b p h)

  submit_compatible-Progress :
      (input : Value) (b : List ℕ) (p : Pool) (h : Heap)
      → Progress names (p, h) (submit_compatible meanwhile clock input b p h)
  unfolding submit_compatible
  submit_compatible-Progress input b p h = elim (Option-cases (route p input)) [
    | inl e ↦
        rw (e, submit_compatible)
          (fail_batch-Progress names "no ready workers available" "overloaded" clock b p h)
    | inr (w, e) ↦ rw (e, submit_compatible) (first w)
  ]
    where
      moved : Pool
      moved = meanwhile (record p { rr_index = p.rr_index + 1 })

      waits : Progress names (p, h) (moved, h)
      waits = record {
        kept = λ r k. patient (record p { rr_index = p.rr_index + 1 }) r k;
        named = benign.keeps_names (record p { rr_index = p.rr_index + 1 });
        evolved = HeapEvolves-refl h;
      }

      first :
          (w : GrpcWorker)
          → Progress names
              (p, h)
              (let (taken, ws) = offer w.identity b moved.workers in
                if taken
                then (record moved { workers = ws }, h)
                else submit_elsewhere w clock input b (meanwhile moved) h)
      first w =
          if_cases (Progress names (p, h)) (offer w.identity b moved.workers).0 _ _
            (λ _. Progress-trans waits (record {
              kept = offer-Keeps w.identity b moved.workers;
              named = offer-IsNamed names w.identity b moved.workers;
              evolved = HeapEvolves-refl h;
            }))
            (λ _. Progress-trans waits (
              Progress-trans {y = (meanwhile moved, h)}
                (record {
                  kept = patient moved;
                  named = benign.keeps_names moved;
                  evolved = HeapEvolves-refl h;
                })
                (submit_elsewhere-Progress w input b (meanwhile moved) h)))

  -- A task is terminal, or waits in a proxy's queue.
  abbrev IsPlaced : Pool × Heap → ℕ → Type 0
  IsPlaced x r = IsTerminal x.1 r ⊎ Waits x.0.workers r

  IsPlaced-Progress : {x y : Pool × Heap} (r : ℕ) → Progress names x y → IsPlaced x r → IsPlaced y r
  IsPlaced-Progress r g (inl t) = inl (HeapEvolves-IsTerminal g.evolved r t)
  IsPlaced-Progress r g (inr w) = inr (g.kept r w)

  submit_compatible-IsPlaced :
      (input : Value) (b : List ℕ) (p : Pool) (h : Heap)
      → IsNamed names p.workers
      → All (IsPlaced (submit_compatible meanwhile clock input b p h)) b
  submit_compatible-IsPlaced input b p h a =
      elim (submit_compatible-IsRouted names input meanwhile clock b p h benign a) [
        | inl (inl placed, same) ↦
            All-of b (λ r m. inr (ground (arith, Placed-waiting _ b r placed)))
        | inl (inr placed, same) ↦
            All-of b (λ r m. inr (ground (arith, Placed-waiting _ b r placed)))
        | inr (kept, ended) ↦
            All-map (IsTerminal (submit_compatible meanwhile clock input b p h).1) _ (λ r t. inl t)
              b ended
      ]

  submit_groups-Progress :
      (gs : List (String × List ℕ)) (p : Pool) (h : Heap)
      → Progress names (p, h) (submit_groups meanwhile clock gs p h)
  unfolding submit_groups
  submit_groups-Progress [] p h = Progress-refl names (p, h)
  submit_groups-Progress ((k, []) ∷ gs) p h = submit_groups-Progress gs p h
  submit_groups-Progress ((k, r ∷ rs) ∷ gs) p h =
      let next = submit_compatible meanwhile clock (h r).input_data (r ∷ rs) p h in
      Progress-trans (submit_compatible-Progress (h r).input_data (r ∷ rs) p h)
        (submit_groups-Progress gs next.0 next.1)

  submit_groups-IsPlaced :
      (gs : List (String × List ℕ)) (p : Pool) (h : Heap) (q : ℕ)
      → IsNamed names p.workers
      → grouped q gs ≡ true
      → IsPlaced (submit_groups meanwhile clock gs p h) q
  unfolding submit_groups
  submit_groups-IsPlaced [] p h q a m = absurd (cc)
  submit_groups-IsPlaced ((k, []) ∷ gs) p h q a m = submit_groups-IsPlaced gs p h q a (ground arith)
  submit_groups-IsPlaced ((k, r ∷ rs) ∷ gs) p h q a m =
      let next = submit_compatible meanwhile clock (h r).input_data (r ∷ rs) p h in
      let g = submit_compatible-Progress (h r).input_data (r ∷ rs) p h in
      elim (Bool-cases (elem q (r ∷ rs))) [
        | inl here' ↦ IsPlaced-Progress q (submit_groups-Progress gs next.0 next.1) (
            All-elem (IsPlaced next) (r ∷ rs) q
              (submit_compatible-IsPlaced (h r).input_data (r ∷ rs) p h a) here')
        | inr later ↦ submit_groups-IsPlaced gs next.0 next.1 q (g.named a) (ground arith)
      ]

  -- After `submit` each task of the batch is terminal, or waits in the queue of a proxy, if the
  -- threads that run meanwhile dispatch nothing and change no proxy's name or capabilities.
  pub submit-IsPlaced :
      (batch : List ℕ) (p : Pool) (h : Heap)
      → IsNamed names p.workers
      → All
          (λ r.
            IsTerminal (submit meanwhile clock batch p h).1 r
            ⊎ Waits (submit meanwhile clock batch p h).0.workers r)
          batch
  unfolding submit
  submit-IsPlaced batch p h a =
      let grouping = group_tasks clock 0 batch [] h in
      let end = submit_groups meanwhile clock grouping.0 p grouping.1 in
      All-map (λ r. IsTerminal grouping.1 r ⊎ (grouped r grouping.0 ≡ true)) (IsPlaced end)
        (λ r c. elim c [
          | inl t ↦
              inl (
                HeapEvolves-IsTerminal (submit_groups-Progress grouping.0 p grouping.1).evolved r t)
          | inr m ↦ submit_groups-IsPlaced grouping.0 p grouping.1 r a m
        ])
        batch (group_tasks-covers clock 0 batch [] h)
