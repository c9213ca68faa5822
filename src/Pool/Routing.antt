-- ===== src/Pool/Routing.antt =====
-- Where a batch goes: to one proxy that supports its kind, or nowhere.
use latency_aware_inference.Common.{
  ℕ, zero, suc, ◌+◌, ◌%◌, ◌<◌, ◌≤◌, ◌≡◌, ◌≢◌, refl, sym, ap, ◌∙◌, subst, Bool, true, false, not,
  ◌&&◌, none, some, String, List, [], ◌∷◌, ◌++◌, length, select, get_elem?, ◌==◌, if◌then◌else◌,
  Bool-cases, All, arith, inl, inr, ◌⊎◌,
}
use latency_aware_inference.Task.Payload.{Value}
use latency_aware_inference.Task.Heap.{Heap, on, IsTerminal, HeapEvolves-IsTerminal}
use latency_aware_inference.Proxy.{GrpcWorker, is_ready, busy, outstanding, try_submit}
use latency_aware_inference.Proxy.Capacity.{try_submit_iff}
use native.Mathlib.Nat.{mod-lt}
use latency_aware_inference.Task.{mark_failed}
use latency_aware_inference.Task.Lifecycle.{mark_failed-Evolves}
use latency_aware_inference.Proxy.Process.{Instant, each_at}
use latency_aware_inference.Proxy.Evolution.{each_at-HeapEvolves}
use latency_aware_inference.Proxy.Ending.{fail-IsTerminal}
use latency_aware_inference.Pool.{
  Pool, supports, ready_for, prefer, route, offer, identities, submit_elsewhere, submit_compatible,
}
use latency_aware_inference.Pool.Placement.{Placed, here, there, offer-Placed, offer_in-Placed}

-- Each proxy object has one worker identity, for good.
abbrev pub IsNamed : (ℕ → String) → List GrpcWorker → Type 0
IsNamed names = All λ w. w.worker_id ≡ names w.identity

-- What other threads leave alone: the names of objects and the configured capabilities.
pub record IsBenign (names : ℕ → String) (meanwhile : Pool → Pool) : Type 0 where
  pub keeps_names : (p : Pool) → IsNamed names p.workers → IsNamed names (meanwhile p).workers
  pub keeps_capabilities : (p : Pool) → (meanwhile p).capabilities ≡ p.capabilities

-- The proxy is configured for the kind of the payload.
abbrev pub CanRun : Pool → Value → GrpcWorker → Type 0
CanRun p input w = supports p w input ≡ true

pub supports-names :
    (p p' : Pool) (v w : GrpcWorker) (input : Value)
    → p'.capabilities ≡ p.capabilities
    → v.worker_id ≡ w.worker_id
    → supports p v input ≡ true
    → supports p' w input ≡ true
unfolding supports
supports-names p p' v w input c n h = rw (c, ← n) h

pub select-All :
    (f : GrpcWorker → Bool) (Q R : GrpcWorker → Type 0)
    → ((w : GrpcWorker) → Q w → f w ≡ true → R w)
    → (ws : List GrpcWorker) → All Q ws
    → All R (select f ws)
select-All f Q R g [] a = tt
select-All f Q R g (w ∷ ws) a = elim (Bool-cases (f w)) [
  | inl e ↦ rw e (g w a.0 e, select-All f Q R g ws a.1)
  | inr e ↦ rw e (select-All f Q R g ws a.1)
]

-- A candidate: named, READY, and able to run the payload.
pub record IsCandidate (names : ℕ → String) (p : Pool) (input : Value) (w : GrpcWorker)
    : Type 0 where
  pub named : w.worker_id ≡ names w.identity
  pub ready : is_ready w ≡ true
  pub able : CanRun p input w

pub ready_for-All :
    (names : ℕ → String) (p : Pool) (input : Value)
    → IsNamed names p.workers
    → All (IsCandidate names p input) (ready_for p input)
unfolding ready_for
ready_for-All names p input a =
    select-All (λ w. is_ready w && supports p w input) (λ w. w.worker_id ≡ names w.identity)
      (IsCandidate names p input)
      (λ w n e. record { named = n; ready = ground arith; able = ground arith }) p.workers a

pub All-map :
    (Q R : GrpcWorker → Type 0)
    → ((w : GrpcWorker) → Q w → R w)
    → (ws : List GrpcWorker) → All Q ws
    → All R ws
All-map Q R f [] a = tt
All-map Q R f (w ∷ ws) a = (f w a.0, All-map Q R f ws a.1)

-- What is known of a chosen proxy: it is a candidate, and idle if an idle one was there.
abbrev IsPick : (GrpcWorker → Type 0) → List GrpcWorker → GrpcWorker → Type 0
IsPick Q idle w = Q w × (idle ≢ [] → busy w ≡ false)

prefer-All :
    (Q : GrpcWorker → Type 0) (idle ready : List GrpcWorker)
    → All (λ w. Q w × (busy w ≡ false)) idle
    → All Q ready
    → All (IsPick Q idle) (prefer idle ready)
prefer-All Q [] ready a b = All-map Q (IsPick Q []) (λ w q. (q, λ ne. absurd (ne refl))) ready b
prefer-All Q (x ∷ xs) ready a b =
    All-map (λ w. Q w × (busy w ≡ false)) (IsPick Q (x ∷ xs)) (λ w q. (q.0, λ ne. q.1)) (x ∷ xs) a

length-prefer :
    (idle : List GrpcWorker) (w : GrpcWorker) (ws : List GrpcWorker)
    → 0 < length (prefer idle (w ∷ ws))
length-prefer [] w ws = omega arith
length-prefer (x ∷ xs) w ws = omega arith

get_elem?-All :
    (Q : GrpcWorker → Type 0) (ws : List GrpcWorker) (i : ℕ) (w : GrpcWorker)
    → All Q ws
    → get_elem? ws i ≡ some w
    → Q w
get_elem?-All Q [] i w a e = absurd (cc)
get_elem?-All Q (v ∷ ws) zero w a e = subst Q (ground arith) a.0
get_elem?-All Q (v ∷ ws) (suc i) w a e = get_elem?-All Q ws i w a.1 e

get_elem?-some :
    (ws : List GrpcWorker) (i : ℕ) → i < length ws → (w : GrpcWorker) × (get_elem? ws i ≡ some w)
get_elem?-some [] i h = absurd (omega arith)
get_elem?-some (w ∷ ws) zero h = (w, refl)
get_elem?-some (w ∷ ws) (suc i) h = get_elem?-some ws i (omega arith)

found-IsPick :
    (Q : GrpcWorker → Type 0) (ready : List GrpcWorker) (n : ℕ)
    → All Q ready
    → let idle = select (λ w. not (busy w)) ready in
      let pool = prefer idle ready in
      ((ready ≡ []) × (get_elem? pool (n % length pool) ≡ none))
      ⊎ ((w : GrpcWorker) × (get_elem? pool (n % length pool) ≡ some w) × IsPick Q idle w)
found-IsPick Q [] n a = inl (refl, refl)
found-IsPick Q (v ∷ vs) n a =
    let idle = select (λ w. not (busy w)) (v ∷ vs) in
    let pool = prefer idle (v ∷ vs) in
    let some_there = length-prefer idle v vs in
    let (w, e) = get_elem?-some pool (n % length pool) (mod-lt n some_there) in
    let idle_all =
      select-All (λ u. not (busy u)) Q (λ u. Q u × (busy u ≡ false)) (λ u q f. (q, ground arith))
        (v ∷ vs) a in
    inr (
      w,
      e,
      get_elem?-All (IsPick Q idle) pool (n % length pool) w (prefer-All Q idle (v ∷ vs) idle_all a)
          e,
    )

-- The route is a candidate; it is idle if any candidate is; and there is none only where no
-- READY proxy supports the kind.
pub route_lem :
    (names : ℕ → String) (p : Pool) (input : Value)
    → IsNamed names p.workers
    → ((ready_for p input ≡ []) × (route p input ≡ none))
      ⊎ ((w : GrpcWorker) × (route p input ≡ some w)
          × IsPick (IsCandidate names p input) (select (λ v. not (busy v)) (ready_for p input)) w)
unfolding route
route_lem names p input a =
    found-IsPick (IsCandidate names p input) (ready_for p input) p.rr_index
      (ready_for-All names p input a)

-- What is known of the proxy that accepted the batch: it is READY, it can run the payload, it was
-- below two outstanding batches, and the batch is at the end of its queue.
pub record Accepts (p : Pool) (input : Value) (batch : List ℕ) (w : GrpcWorker) : Type 0 where
  pub able : CanRun p input w
  pub ready : is_ready w ≡ true
  pub room : outstanding w ≤ 1
  pub queued : (try_submit w batch).1.batch_queue ≡ w.batch_queue ++ batch ∷ []

Placed-Accepts :
    (p : Pool) (input : Value) (batch : List ℕ) {ws ws' : List GrpcWorker}
    → Placed (CanRun p input) batch ws ws'
    → Placed (Accepts p input batch) batch ws ws'
unfolding try_submit
Placed-Accepts p input batch (here w ws c taken) =
    let known = (try_submit_iff w batch).0 taken in
    here w ws (record { able = c; ready = known.0; room = known.1; queued = ground (arith, taken) })
      taken
Placed-Accepts p input batch (there w q) = there w (Placed-Accepts p input batch q)

-- The pool when the first offer is made, after the lock was free once.
abbrev pub at_offer : (Pool → Pool) → Pool → Pool
at_offer meanwhile p = meanwhile (record p { rr_index = p.rr_index + 1 })

-- The pool `p'` differs from the pool at the time of the offer in the one proxy that accepted the
-- batch, and no task was touched; or no proxy was given the batch, and all its tasks have ended.
abbrev pub IsRouted : (Pool → Pool) → Pool → Value → List ℕ → Heap → Pool × Heap → Type 0
IsRouted meanwhile p input batch h (p', h') =
    ((Placed (Accepts p input batch) batch (at_offer meanwhile p).workers p'.workers
        ⊎ Placed (Accepts p input batch) batch (meanwhile (at_offer meanwhile p)).workers
            p'.workers)
      × (h' ≡ h))
    ⊎ (((p'.workers ≡ p.workers) ⊎ (p'.workers ≡ (meanwhile (at_offer meanwhile p)).workers))
        × All (IsTerminal h') batch)

-- The end of a submission to the other proxies of the pool `q`.
abbrev IsOffered : Pool → Value → List ℕ → Heap → Pool → Pool × Heap → Type 0
IsOffered p input batch h q (p', h') =
    (Placed (Accepts p input batch) batch q.workers p'.workers × (h' ≡ h))
    ⊎ ((p'.workers ≡ q.workers) × All (IsTerminal h') batch)

offered-IsRouted :
    (meanwhile : Pool → Pool) (p : Pool) (input : Value) (batch : List ℕ) (h : Heap)
    (x : Pool × Heap)
    → IsOffered p input batch h (meanwhile (at_offer meanwhile p)) x
    → IsRouted meanwhile p input batch h x
offered-IsRouted meanwhile p input batch h x (inl (q, e)) = inl (inr q, e)
offered-IsRouted meanwhile p input batch h x (inr (q, a)) = inr (inr q, a)

fail_batch-All :
    (m c : String) (clock : ℕ → Instant) (i : ℕ) (rs : List ℕ) (h : Heap)
    → All (IsTerminal (each_at (λ j. mark_failed m (some c) (clock j).wall) i rs h)) rs
fail_batch-All m c clock i [] h = tt
fail_batch-All m c clock i (r ∷ rs) h = (
  HeapEvolves-IsTerminal
      (each_at-HeapEvolves (λ j. mark_failed m (some c) (clock j).wall)
        (λ j. mark_failed-Evolves m (some c) (clock j).wall) (suc i) rs
        (on r (mark_failed m (some c) (clock i).wall) h))
      r (fail-IsTerminal m (some c) (clock i).wall r h),
  fail_batch-All m c clock (suc i) rs (on r (mark_failed m (some c) (clock i).wall) h),
)

module _ (names : ℕ → String) (input : Value) where
  -- In a named list an object with a candidate's identity can run what the candidate can.
  same_object :
      (p p' : Pool) (w : GrpcWorker) (ws : List GrpcWorker)
      → p'.capabilities ≡ p.capabilities
      → IsCandidate names p input w
      → IsNamed names ws
      → All (λ v. v.identity ≡ w.identity → CanRun p' input v) ws
  same_object p p' w ws c k a =
      All-map (λ v. v.worker_id ≡ names v.identity)
        (λ v. v.identity ≡ w.identity → CanRun p' input v)
        (λ v n e. supports-names p p' w v input c (k.named ∙ ap names (sym e) ∙ sym n) k.able) ws a

  same_objects :
      (p p' : Pool) (cs ws : List GrpcWorker)
      → p'.capabilities ≡ p.capabilities
      → All (IsCandidate names p input) cs
      → IsNamed names ws
      → All (λ object. All (λ v. v.identity ≡ object → CanRun p' input v) ws) (identities cs)
  same_objects p p' [] ws c k a = tt
  same_objects p p' (w ∷ cs) ws c k a =
      (same_object p p' w ws c k.0 a, same_objects p p' cs ws c k.1 a)

  submit_elsewhere-IsOffered :
      (p₀ p : Pool) (w : GrpcWorker) (clock : ℕ → Instant) (batch : List ℕ) (h : Heap)
      → p.capabilities ≡ p₀.capabilities
      → IsNamed names p.workers
      → IsOffered p₀ input batch h p (submit_elsewhere w clock input batch p h)
  unfolding submit_elsewhere
  submit_elsewhere-IsOffered p₀ p w clock batch h c a =
      let others = select (λ v. not (v.identity == w.identity)) (ready_for p input) in
      let able : All (IsCandidate names p input) others =
        select-All (λ v. not (v.identity == w.identity)) (IsCandidate names p input)
          (IsCandidate names p input) (λ v q e. q) (ready_for p input)
          (ready_for-All names p input a) in
      elim (offer_in-Placed (CanRun p₀ input) batch (identities others) p.workers
        (same_objects p p₀ others p.workers (sym c) able a)) [
          | inl (t, placed) ↦ rw t (inl (Placed-Accepts p₀ input batch placed, refl))
          | inr (t, e) ↦
              rw t
                (inr (refl, fail_batch-All "all workers at capacity" "overloaded" clock 0 batch h))
        ]

  -- `_submit_compatible` gives the batch to exactly one proxy of the pool as it is at the offer: one
  -- that is READY there, supports the kind and has less than two outstanding batches; the batch is at
  -- the end of its queue, and no task is touched. Or it gives the batch to no proxy, and every task of
  -- the batch is terminal. The conditions are that each proxy object has one worker identity for good
  -- (IsNamed), and that other threads keep these and the configured capabilities (IsBenign).
  pub submit_compatible-IsRouted :
      (meanwhile : Pool → Pool) (clock : ℕ → Instant) (batch : List ℕ) (p : Pool) (h : Heap)
      → IsBenign names meanwhile
      → IsNamed names p.workers
      → IsRouted meanwhile p input batch h (submit_compatible meanwhile clock input batch p h)
  unfolding submit_compatible
  submit_compatible-IsRouted meanwhile clock batch p h b a = elim (route_lem names p input a) [
    | inl (empty, e) ↦
        rw (e, submit_compatible)
          (inr (inl refl, fail_batch-All "no ready workers available" "overloaded" clock 0 batch h))
    | inr (w, e, k) ↦ rw (e, submit_compatible) (first w k.0)
  ]
    where
      before : Pool
      before = record p { rr_index = p.rr_index + 1 }

      moved : Pool
      moved = meanwhile before

      first :
          (w : GrpcWorker)
          → IsCandidate names p input w
          → IsRouted meanwhile p input batch h (
              let (taken, ws) = offer w.identity batch moved.workers in
              if taken
              then (record moved { workers = ws }, h)
              else submit_elsewhere w clock input batch (meanwhile moved) h)
      first w k =
          let named = b.keeps_names before a in
          let same = b.keeps_capabilities before in
          elim (offer-Placed (CanRun p input) batch w.identity moved.workers
            (same_object p p w moved.workers refl k named)) [
              | inl (t, placed) ↦ rw t (inl (inl (Placed-Accepts p input batch placed), refl))
              | inr (t, e) ↦ rw t (
                  offered-IsRouted meanwhile p input batch h
                    (submit_elsewhere w clock input batch (meanwhile moved) h)
                    (submit_elsewhere-IsOffered p (meanwhile moved) w clock batch h
                      (b.keeps_capabilities moved ∙ same) (b.keeps_names moved named)))
            ]
