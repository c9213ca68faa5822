-- ===== src/Pool/Handoffs.antt =====
-- `try_resubmit`: one handoff, to another proxy, and the dispatch that it serves.
use latency_aware_inference.Common.{
  ℕ, ◌≡◌, ◌≢◌, refl, sym, ap, ◌∙◌, Bool, true, false, not, ◌||◌, String, str_eq, List, [], ◌∷◌,
  ◌++◌, select, is_empty, if◌then◌else◌, if_cases, All, All-append, arith, inl, inr,
}
use latency_aware_inference.Task.{Task, try_reserve_retry}
use latency_aware_inference.Task.Lifecycle.{try_reserve_retry-Evolves}
use latency_aware_inference.Task.Payload.{Value}
use latency_aware_inference.Task.Heap.{
  Heap, write, HeapEvolves, HeapEvolves-refl, write-HeapEvolves,
}
use latency_aware_inference.Proxy.{GrpcWorker}
use latency_aware_inference.Proxy.Process.{Instant, Handoff, accepted}
use latency_aware_inference.Pool.{busy_in, Pool, ready_for, offer_in, identities, try_resubmit}
use latency_aware_inference.Pool.Placement.{Placed, offer_in-Placed, Placed-waiting}
use latency_aware_inference.Pool.Routing.{
  IsNamed, IsBenign, CanRun, IsCandidate, ready_for-All, select-All, All-map, supports-names,
}
use latency_aware_inference.Pool.Submission.{Waits, offer_in-Keeps, trivially-All}

-- A proxy of another worker that can run the payload.
abbrev pub IsOther : Pool → String → Value → GrpcWorker → Type 0
IsOther p failed input w = (str_eq w.worker_id failed ≡ false) × CanRun p input w

abbrev IsOtherCandidate : (ℕ → String) → Pool → String → Value → GrpcWorker → Type 0
IsOtherCandidate names p failed input w =
    IsCandidate names p input w × (str_eq w.worker_id failed ≡ false)

module _ (names : ℕ → String) (p : Pool) (failed : String) (input : Value) (ws : List GrpcWorker)
    (a : IsNamed names ws) where
  objects-IsOther :
      (cs : List GrpcWorker)
      → All (IsOtherCandidate names p failed input) cs
      → All (λ object. All (λ v. v.identity ≡ object → IsOther p failed input v) ws) (identities cs)
  objects-IsOther [] k = tt
  objects-IsOther (c ∷ cs) k = (
    All-map (λ v. v.worker_id ≡ names v.identity)
        (λ v. v.identity ≡ c.identity → IsOther p failed input v)
        (λ v n e.
          let same : c.worker_id ≡ v.worker_id = k.0.0.named ∙ ap names (sym e) ∙ sym n in
          (rw (← same) k.0.1, supports-names p p c v input refl same k.0.0.able))
        ws a,
    objects-IsOther cs k.1,
  )

  other_candidates :
      IsNamed names p.workers
      → All
          (IsOtherCandidate names p failed input)
          (select (λ w. not (str_eq w.worker_id failed)) (ready_for p input))
  other_candidates b =
      select-All (λ w. not (str_eq w.worker_id failed)) (IsCandidate names p input)
        (IsOtherCandidate names p failed input) (λ w k e. (k, ground arith)) (ready_for p input)
        (ready_for-All names p input b)

select-keeps :
    (f : GrpcWorker → Bool) (Q : GrpcWorker → Type 0) (ws : List GrpcWorker)
    → All Q ws
    → All Q (select f ws)
select-keeps f Q ws a = select-All f Q Q (λ w q e. q) ws a

-- What an accepted handoff shows.
pub record IsHandedOff (p : Pool) (failed : String) (r : ℕ) (h : Heap) (before : List GrpcWorker)
    (after : Pool) (h' : Heap) : Type 0 where
  pub not_stopping : p.stopping ≡ false
  pub first_retry : (h r).retry_count ≡ 0
  pub reserved : (h' r).retry_count ≡ 1
  pub placed : Placed (IsOther p failed (h r).input_data) (r ∷ []) before after.workers

try_reserve_retry-count :
    (now : ℕ) (t : Task)
    → (try_reserve_retry now t).0 ≡ true
    → (t.retry_count ≡ 0) × ((try_reserve_retry now t).1.retry_count ≡ 1)
unfolding try_reserve_retry
try_reserve_retry-count now t h = ground arith

write_self : (r : ℕ) (t : Task) (h : Heap) → write r t h r ≡ t
write_self r t h = ground arith

-- The outcome of a handoff, from its tests.
abbrev outcome {ℓ} : {A : Type ℓ} → Bool → Bool → Bool → A → A → A → A → A
outcome closed granted taken a b c d =
    if closed then a else if not granted then b else if taken then c else d

outcome-accepted :
    {S : Type 0} (f : S → Handoff) (closed granted taken : Bool) (x y z w : S)
    → f x ≢ accepted
    → f y ≢ accepted
    → f w ≢ accepted
    → f (outcome closed granted taken x y z w) ≡ accepted
    → (closed ≡ false) × (granted ≡ true) × (taken ≡ true)
outcome-accepted f true g t x y z w nx ny nw e = absurd (nx e)
outcome-accepted f false false t x y z w nx ny nw e = absurd (ny e)
outcome-accepted f false true true x y z w nx ny nw e = (refl, refl, refl)
outcome-accepted f false true false x y z w nx ny nw e = absurd (nw e)

module _ (names : ℕ → String) (meanwhile : Pool → Pool) (benign : IsBenign names meanwhile)
    (failed : String) (r : ℕ) (t : Instant) (p : Pool) (h : Heap) where
  -- A handoff is accepted only by a running pool, for a task that had no retry before and has one
  -- then, and by one proxy of another worker that supports the task's kind.
  pub try_resubmit-IsHandedOff :
      IsNamed names p.workers
      → (try_resubmit meanwhile failed r t p h).0 ≡ accepted
      → let (_, p', h') = try_resubmit meanwhile failed r t p h in
        IsHandedOff p failed r h (meanwhile p).workers p' h'
  unfolding try_resubmit
  try_resubmit-IsHandedOff a e =
      let candidates =
        select (λ w. not (str_eq w.worker_id failed)) (ready_for p (h r).input_data) in
      let order =
        select (λ w. not (busy_in (meanwhile p).workers w)) candidates
        ++ select (busy_in (meanwhile p).workers) candidates in
      let ws = (meanwhile p).workers in
      let b = benign.keeps_names p a in
      let ks = other_candidates names p failed (h r).input_data ws b a in
      let Q : GrpcWorker → Type 0 = IsOtherCandidate names p failed (h r).input_data in
      let out = offer_in (identities order) (r ∷ []) ws in
      let closed = p.stopping || is_empty candidates in
      let granted = (try_reserve_retry t.monotonic (h r)).0 in
      let (o, g, k) =
        outcome-accepted {S = Handoff × Pool × Heap} (λ x. x.0) closed granted out.0 _ _ _ _
          (λ e. cc) (λ e. cc) (λ e. cc) e in
      let count = try_reserve_retry-count t.monotonic (h r) g in
      let able = objects-IsOther names p failed (h r).input_data ws b order (
        All-append Q _ _ (select-keeps (λ w. not (busy_in (meanwhile p).workers w)) Q candidates ks)
          (select-keeps (busy_in (meanwhile p).workers) Q candidates ks)) in
      rw (o, g, k)
        (record {
          not_stopping = ground arith;
          first_retry = count.0;
          reserved = rw (write_self r (try_reserve_retry t.monotonic (h r)).1 h) count.1;
          placed =
              elim (offer_in-Placed (IsOther p failed (h r).input_data) (r ∷ []) (identities order)
                ws able) [ inl (_, placed) ↦ placed | inr (none_took, _) ↦ absurd (cc) ];
        })

module _ (meanwhile : Pool → Pool) (failed : String) (r : ℕ) (t : Instant) (p : Pool)
    (h : Heap) where
  pub try_resubmit-HeapEvolves : HeapEvolves h (try_resubmit meanwhile failed r t p h).2
  unfolding try_resubmit
  try_resubmit-HeapEvolves =
      let candidates =
        select (λ w. not (str_eq w.worker_id failed)) (ready_for p (h r).input_data) in
      let reserve = try_reserve_retry t.monotonic (h r) in
      let step = write-HeapEvolves h r reserve.1 (try_reserve_retry-Evolves t.monotonic (h r)) in
      if_cases (λ (x : Handoff × Pool × Heap). HeapEvolves h x.2)
        (p.stopping || is_empty candidates) _ _ (λ _. HeapEvolves-refl h)
        λ _.
          if_cases (λ (x : Handoff × Pool × Heap). HeapEvolves h x.2) (not reserve.0) _ _
            (λ _. step)
            λ _.
              if_cases (λ (x : Handoff × Pool × Heap). HeapEvolves h x.2) _ _ _ (λ _. step)
                (λ _. step)

  pub try_resubmit-Keeps :
      ((q : Pool) (k : ℕ) → Waits q.workers k → Waits (meanwhile q).workers k)
      → (k : ℕ) → Waits p.workers k
      → Waits (try_resubmit meanwhile failed r t p h).1.workers k
  unfolding try_resubmit
  try_resubmit-Keeps patient k w =
      let candidates =
        select (λ w. not (str_eq w.worker_id failed)) (ready_for p (h r).input_data) in
      let order =
        select (λ w. not (busy_in (meanwhile p).workers w)) candidates
        ++ select (busy_in (meanwhile p).workers) candidates in
      let reserve = try_reserve_retry t.monotonic (h r) in
      let Q : Handoff × Pool × Heap → Type 0 = λ x. Waits x.1.workers k in
      if_cases Q (p.stopping || is_empty candidates) _ _ (λ _. w)
        λ _.
          if_cases Q (not reserve.0) _ _ (λ _. w)
            λ _.
              if_cases Q (offer_in (identities order) (r ∷ []) (meanwhile p).workers).0 _ _
                (λ _.
                  offer_in-Keeps (identities order) (r ∷ []) (meanwhile p).workers k
                    (patient p k w))
                (λ _. patient p k w)

taken-Waits :
    (r : ℕ) (objects : List ℕ) (ws : List GrpcWorker)
    → (offer_in objects (r ∷ []) ws).0 ≡ true
    → Waits (offer_in objects (r ∷ []) ws).1 r
taken-Waits r objects ws k =
    elim (offer_in-Placed (λ w. Unit {0}) (r ∷ []) objects ws (trivially-All objects ws)) [
      | inl (_, placed) ↦ ground (arith, Placed-waiting (λ w. Unit {0}) (r ∷ []) r placed)
      | inr (none_took, _) ↦ absurd (cc)
    ]

-- After an accepted handoff no other is accepted for the task: from whichever proxy, at whatever
-- time, and whatever has happened to the pool and to the tasks in between, if the tasks only evolve
-- (HeapEvolves), each proxy object has one worker identity for good (IsNamed), and the threads that
-- run during the first handoff keep these and the configured capabilities (IsBenign).
pub try_resubmit_once :
    (names : ℕ → String) (meanwhile later : Pool → Pool) (failed failed' : String) (r : ℕ)
    (t t' : Instant) (p p' : Pool) (h h' : Heap)
    → IsBenign names meanwhile
    → IsNamed names p.workers
    → (try_resubmit meanwhile failed r t p h).0 ≡ accepted
    → HeapEvolves (try_resubmit meanwhile failed r t p h).2 h'
    → (try_resubmit later failed' r t' p' h').0 ≢ accepted
unfolding try_resubmit
try_resubmit_once names meanwhile later failed failed' r t t' p p' h h' b a e evolved e' =
    let handed = try_resubmit-IsHandedOff names meanwhile b failed r t p h a e in
    let candidates =
      select (λ w. not (str_eq w.worker_id failed')) (ready_for p' (h' r).input_data) in
    let order =
      select (λ w. not (busy_in (later p').workers w)) candidates
      ++ select (busy_in (later p').workers) candidates in
    let (o, g, k) =
      outcome-accepted {S = Handoff × Pool × Heap} (λ x. x.0) (p'.stopping || is_empty candidates)
        (try_reserve_retry t'.monotonic (h' r)).0
        (offer_in (identities order) (r ∷ []) (later p').workers).0 _ _ _ _ (λ e. cc) (λ e. cc)
        (λ e. cc) e' in
    let count = try_reserve_retry-count t'.monotonic (h' r) g in
    absurd (omega (arith, handed.reserved, (evolved.at r).retries, count.0))

-- An accepted task waits in the pool.
pub try_resubmit-Waits :
    (meanwhile : Pool → Pool) (failed : String) (r : ℕ) (t : Instant) (p : Pool) (h : Heap)
    → (try_resubmit meanwhile failed r t p h).0 ≡ accepted
    → Waits (try_resubmit meanwhile failed r t p h).1.workers r
unfolding try_resubmit
try_resubmit-Waits meanwhile failed r t p h e =
    let candidates = select (λ w. not (str_eq w.worker_id failed)) (ready_for p (h r).input_data) in
    let order =
      select (λ w. not (busy_in (meanwhile p).workers w)) candidates
      ++ select (busy_in (meanwhile p).workers) candidates in
    let ws = (meanwhile p).workers in
    let (o, g, k) =
      outcome-accepted {S = Handoff × Pool × Heap} (λ x. x.0) (p.stopping || is_empty candidates)
        (try_reserve_retry t.monotonic (h r)).0 (offer_in (identities order) (r ∷ []) ws).0 _ _ _ _
        (λ e. cc) (λ e. cc) (λ e. cc) e in
    rw (o, g, k) (taken-Waits r (identities order) ws k)
